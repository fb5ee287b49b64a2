-- ===== src/Prelude/Text.antt =====
-- Equality of byte strings, as a test.
use mathlib.Core.Path.{◌≡◌, refl, ap₂}
use mathlib.Core.Logic.{inl, inr}
use mathlib.Core.Bool.{Bool, true, false, ◌&&◌}
use mathlib.Core.List.{[], ◌∷◌}
use native.Mathlib.Omega.{arith}
use bencode.Prelude.Lists.{Bytes}
use bencode.Prelude.Tests.{◌==◌, ==_iff, Bool-cases}

abbrev pub same_text : Bytes → Bytes → Bool
same_text [] [] = true
same_text (x ∷ xs) (y ∷ ys) = (x == y) && same_text xs ys
same_text _ _ = false

pub same_text_refl : (bs : Bytes) → same_text bs bs ≡ true
same_text_refl [] = refl
same_text_refl (b ∷ bs) = ground (arith, same_text_refl bs)

pub same_text-eq : (a b : Bytes) → same_text a b ≡ true → a ≡ b
same_text-eq [] [] h = refl
same_text-eq [] (y ∷ ys) h = cc
same_text-eq (x ∷ xs) [] h = cc
same_text-eq (x ∷ xs) (y ∷ ys) h = elim (Bool-cases (x == y)) [
  | inl e ↦ ap₂ (λ u v. u ∷ v) ((==_iff x y).0 e) (same_text-eq xs ys (rw e at h))
  | inr e ↦ absurd (differ (rw e at h))
]
  where
    differ : false ≡ true → ⊥
    differ q = cc
