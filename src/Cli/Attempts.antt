-- ===== src/Cli/Attempts.antt =====
-- Calls whose failure the caller handles, and calls on the heap.
use bencode.Prelude.{◌≡◌, refl}
use bencode.Status.{Error, Result, ok, err}
use bencode.Exec.{Run}
use bencode.Exec.Ensures.{Ensures, returns, raises}
use bencode.Memory.{Memory}
use bencode.Cli.{World, enclose, keep}

module _ {S A : Type 0} {P : A → Memory → Type 0} {E : Error → Memory → Type 0} where
  -- A call on the heap leaves the streams as they are.
  pub on_heap-Ensures :
      (s : S) {r : Run Memory A}
      → Ensures P E r
      → Ensures
          (λ a w. P a w.memory × (w.outside ≡ s))
          (λ e w. E e w.memory × (w.outside ≡ s))
          (enclose s r)
  on_heap-Ensures s (returns p) = returns (p, refl)
  on_heap-Ensures s (raises q) = raises (q, refl)

module _ {S A : Type 0} (P : A → World S → Type 0) (E : Error → World S → Type 0) where
  -- What is known of a result, as a value.
  abbrev pub Either : Result A → World S → Type 0
  Either (ok a) = P a
  Either (err e) = E e

module _ {S A : Type 0} {P : A → World S → Type 0} {E : Error → World S → Type 0} where
  pub attempt-Ensures :
      {r : Run (World S) A} → Ensures P E r → Ensures (Either P E) (λ _ _. ⊥) (keep r)
  attempt-Ensures (returns p) = returns p
  attempt-Ensures (raises q) = returns q
