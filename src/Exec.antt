-- ===== src/Exec.antt =====
-- C functions that return a `bencode_status`, write results through pointers and change a state.
-- What was changed before an error stays changed, so the state comes back beside an error too.
pub mod Ensures
use bencode.Status.{Error, Result, ok, err}

-- `out_of_bounds` is an access outside an array, which is undefined in C; `out_of_fuel` has no
-- counterpart in the program.
pub data Run (S A : Type 0) : Type 0 where
  returned : Result A → S → Run S A
  out_of_bounds out_of_fuel : Run S A

abbrev pub Exec : Type 0 → Type 0 → Type 0
Exec S A = S → Run S A

module _ {S A : Type 0} where
  abbrev pub pure : A → Exec S A
  pure a s = returned (ok a) s

  abbrev pub fail : Error → Exec S A
  fail e s = returned (err e) s

  abbrev pub lift : Result A → Exec S A
  lift r s = returned r s

  abbrev pub fault : Exec S A
  fault s = out_of_bounds

  abbrev pub run : S → Exec S A → Run S A
  run s m = m s

module _ {S A B : Type 0} where
  abbrev pub and_then : Run S A → (A → Exec S B) → Run S B
  and_then (returned (ok a) s) k = k a s
  and_then (returned (err e) s) k = returned (err e) s
  and_then out_of_bounds k = out_of_bounds
  and_then out_of_fuel k = out_of_fuel

  infixl 5 ◌>>=◌ ◌>>◌
  abbrev pub ◌>>=◌ : Exec S A → (A → Exec S B) → Exec S B
  m >>= k = λ s. and_then (m s) k

  abbrev pub ◌>>◌ : Exec S A → Exec S B → Exec S B
  m >> n = m >>= λ _. n

module _ {S A : Type 0} where
  abbrev pub handle : Run S A → (Error → Exec S A) → Run S A
  handle (returned (ok a) s) h = returned (ok a) s
  handle (returned (err e) s) h = h e s
  handle out_of_bounds h = out_of_bounds
  handle out_of_fuel h = out_of_fuel

  -- `if (st != BENCODE_OK) { cleanup; return st; }`
  abbrev pub or_else : Exec S A → Exec S (Unit {0}) → Exec S A
  or_else m cleanup s = handle (m s) λ e. cleanup >> fail e
