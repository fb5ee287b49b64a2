-- ===== src/Exec/Ensures.antt =====
-- Total correctness of a run: no access out of bounds, enough fuel, and a postcondition for a
-- success and for an error.
use bencode.Prelude.{◌≡◌, refl, Bool, true, false, if◌then◌else◌}
use mathlib.Core.Path.{subst₂}
use bencode.Status.{Error, Result, ok, err}
use bencode.Exec.{Run, returned, Exec, and_then, ◌>>◌, fail, handle}

pub data Ensures {S A : Type 0} (P : A → S → Type 0) (E : Error → S → Type 0)
    : Run S A → Type 0 where
  returns : {a : A} {s : S} → P a s → Ensures P E (returned (ok a) s)
  raises : {e : Error} {s : S} → E e s → Ensures P E (returned (err e) s)

module _ {S A : Type 0} {P : A → S → Type 0} {E : Error → S → Type 0} where
  pub bind :
      {B : Type 0} {Q : B → S → Type 0} {F : Error → S → Type 0} {r : Run S A} {k : A → Exec S B}
      → Ensures P E r
      → ((a : A) (s : S) → P a s → Ensures Q F (k a s))
      → ((e : Error) (s : S) → E e s → F e s)
      → Ensures Q F (and_then r k)
  bind (returns p) next keep = next _ _ p
  bind (raises q) next keep = raises (keep _ _ q)

  pub mono :
      {Q : A → S → Type 0} {F : Error → S → Type 0} {r : Run S A}
      → Ensures P E r
      → ((a : A) (s : S) → P a s → Q a s)
      → ((e : Error) (s : S) → E e s → F e s)
      → Ensures Q F r
  mono (returns p) weaken keep = returns (weaken _ _ p)
  mono (raises q) weaken keep = raises (keep _ _ q)

  pub branch :
      (b : Bool) {x y : Run S A}
      → (b ≡ true → Ensures P E x)
      → (b ≡ false → Ensures P E y)
      → Ensures P E (if b then x else y)
  branch true hx hy = hx refl
  branch false hx hy = hy refl

  pub branch_at :
      (b : Bool) (x y : Exec S A) {s : S}
      → (b ≡ true → Ensures P E (x s))
      → (b ≡ false → Ensures P E (y s))
      → Ensures P E ((if b then x else y) s)
  branch_at true x y hx hy = hx refl
  branch_at false x y hx hy = hy refl

  -- What a run did, from what it ensures.
  pub Ensures-ok : {r : Run S A} {a : A} {s : S} → Ensures P E r → r ≡ returned (ok a) s → P a s
  Ensures-ok (returns p) e = subst₂ P (cc) (cc) p
  Ensures-ok (raises q) e = cc

  pub Ensures-returned :
      {r : Run S A} → Ensures P E r → (a : Result A) × (s : S) × (r ≡ returned a s)
  Ensures-returned (returns p) = (_, _, refl)
  Ensures-returned (raises q) = (_, _, refl)

module _ {S A : Type 0} {P : A → S → Type 0} {E F : Error → S → Type 0} where
  pub clean :
      {r : Run S A} {c : Exec S (Unit {0})}
      → Ensures P E r
      → ((e : Error) (t : S) → E e t → Ensures {A = Unit {0}} (λ _ u. F e u) (λ _ _. ⊥) (c t))
      → Ensures P F (handle r λ e. c >> fail e)
  clean (returns p) tidy = returns p
  clean (raises q) tidy = bind (tidy _ _ q) (λ _ _ p. raises p) λ _ _ f. absurd f
