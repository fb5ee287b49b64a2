-- ===== src/KeyOrder.antt =====
-- The order of dictionary keys: `bytes_cmp` of src/parse_sax.c, over the C library's `memcmp`.
-- The sign of the `int` that these return is an `Ordering`.
pub mod Laws
mod Tests
use Prim.Native.Nat.{compare}
use bencode.Prelude.{ℕ, zero, suc, ◌<◌, ◌≡◌, ◌⊎◌, Bytes, [], ◌∷◌, ltb, ◌==◌, if◌then◌else◌, length}
pub use Prim.Native.Nat.{Ordering}

-- The sign of `memcmp (a, b, n)`.
unfoldable pub memcmp : ℕ → Bytes → Bytes → Ordering
memcmp zero a b = Ordering.eq
memcmp (suc n) [] b = Ordering.eq
memcmp (suc n) (x ∷ a) [] = Ordering.eq
memcmp (suc n) (x ∷ a) (y ∷ b) = elim (compare x y) [
  | Ordering.lt ↦ Ordering.lt
  | Ordering.gt ↦ Ordering.gt
  | Ordering.eq ↦ memcmp n a b
]

-- The lengths decide where the common prefix does not.
abbrev pub by_length : Ordering → ℕ → ℕ → Ordering
by_length Ordering.lt alen blen = Ordering.lt
by_length Ordering.gt alen blen = Ordering.gt
by_length Ordering.eq alen blen =
    if ltb alen blen then Ordering.lt else if ltb blen alen then Ordering.gt else Ordering.eq

unfoldable pub bytes_cmp : Bytes → Bytes → Ordering
unfolding memcmp
bytes_cmp a b =
    let alen = length a in
    let blen = length b in
    let n = if ltb alen blen then alen else blen in
    let c = if n == 0 then Ordering.eq else memcmp n a b in by_length c alen blen

-- `a` stands strictly before `b` in the lexicographic order of unsigned bytes.
abbrev pub Before : Bytes → Bytes → Type 0
Before a [] = ⊥
Before [] (y ∷ b) = Unit
Before (x ∷ a) (y ∷ b) = (x < y) ⊎ ((x ≡ y) × Before a b)

-- What each result of a comparison says of the two strings.
abbrev pub Compares : Bytes → Bytes → Ordering → Type 0
Compares a b Ordering.lt = Before a b
Compares a b Ordering.eq = a ≡ b
Compares a b Ordering.gt = Before b a
