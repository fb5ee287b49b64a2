-- ===== src/KeyOrder/Laws.antt =====
-- `bytes_cmp` decides the lexicographic order, which is strict and total.
use Prim.Native.Nat.{compare, Ordering}
use bencode.Prelude.{
  ℕ, ◌≡◌, refl, subst, ◌∙◌, ap₂, sym, ◌<◌, ◌⊎◌, inl, inr, Bytes, [], ◌∷◌, arith, ltb, if◌then◌else◌,
  length,
}
use bencode.KeyOrder.{memcmp, bytes_cmp, by_length, Before, Compares}

-- The comparison byte by byte.
lex : Bytes → Bytes → Ordering
lex [] [] = Ordering.eq
lex [] (y ∷ b) = Ordering.lt
lex (x ∷ a) [] = Ordering.gt
lex (x ∷ a) (y ∷ b) = elim (compare x y) [
  | Ordering.lt ↦ Ordering.lt
  | Ordering.gt ↦ Ordering.gt
  | Ordering.eq ↦ lex a b
]

-- The three ways in which two bytes compare.
compare-cases :
    (x y : ℕ)
    → ((compare x y ≡ Ordering.lt) × (x < y))
      ⊎ (((compare x y ≡ Ordering.eq) × (x ≡ y)) ⊎ ((compare x y ≡ Ordering.gt) × (y < x)))
compare-cases x y = go (compare x y) refl
  where
    go :
        (o : Ordering)
        → compare x y ≡ o
        → ((compare x y ≡ Ordering.lt) × (x < y))
          ⊎ (((compare x y ≡ Ordering.eq) × (x ≡ y)) ⊎ ((compare x y ≡ Ordering.gt) × (y < x)))
    go Ordering.lt e = inl (e, ground arith)
    go Ordering.eq e = inr (inl (e, ground arith))
    go Ordering.gt e = inr (inr (e, ground arith))

lex-Compares : (a b : Bytes) → Compares a b (lex a b)
unfolding lex
lex-Compares [] [] = refl
lex-Compares [] (y ∷ b) = tt
lex-Compares (x ∷ a) [] = tt
lex-Compares (x ∷ a) (y ∷ b) = elim (compare-cases x y) [
  | inl (e, h) ↦ rw (e, lex) (inl h)
  | inr (inl (e, h)) ↦ rw (e, lex) (same h (lex a b) (lex-Compares a b))
  | inr (inr (e, h)) ↦ rw (e, lex) (inl h)
]
  where
    same : x ≡ y → (o : Ordering) → Compares a b o → Compares (x ∷ a) (y ∷ b) o
    same e Ordering.lt h = inr (e, h)
    same e Ordering.eq h = ap₂ ◌∷◌ e h
    same e Ordering.gt h = inr (sym e, h)

by_length-lex :
    (a b : Bytes)
    → by_length
        (memcmp (if ltb (length a) (length b) then length a else length b) a b)
        (length a)
        (length b)
      ≡ lex a b
unfolding memcmp lex
by_length-lex [] [] = refl
by_length-lex [] (y ∷ b) = ground arith
by_length-lex (x ∷ a) [] = ground arith
by_length-lex (x ∷ a) (y ∷ b) = ground (arith, by_length-lex a b)

bytes_cmp-lex : (a b : Bytes) → bytes_cmp a b ≡ lex a b
unfolding bytes_cmp memcmp
bytes_cmp-lex a b = ground (arith, by_length-lex a b)

-- The sign of `bytes_cmp` is right: negative exactly on keys in order, zero on equal keys, and
-- positive on keys in the opposite order.
pub bytes_cmp-Compares : (a b : Bytes) → Compares a b (bytes_cmp a b)
bytes_cmp-Compares a b = rw bytes_cmp-lex (lex-Compares a b)

pub Before-irrefl : (a : Bytes) → ¬ (Before a a)
Before-irrefl [] h = h
Before-irrefl (x ∷ a) (inl h) = absurd (omega arith)
Before-irrefl (x ∷ a) (inr (e, h)) = Before-irrefl a h

pub Before-trans : (a b c : Bytes) → Before a b → Before b c → Before a c
Before-trans a b [] h k = absurd k
Before-trans a [] (z ∷ c) h k = absurd h
Before-trans [] (y ∷ b) (z ∷ c) h k = tt
Before-trans (x ∷ a) (y ∷ b) (z ∷ c) (inl h) (inl k) = inl (omega arith)
Before-trans (x ∷ a) (y ∷ b) (z ∷ c) (inl h) (inr (e, k)) = inl (omega arith)
Before-trans (x ∷ a) (y ∷ b) (z ∷ c) (inr (e, h)) (inl k) = inl (omega arith)
Before-trans (x ∷ a) (y ∷ b) (z ∷ c) (inr (d, h)) (inr (e, k)) = inr (d ∙ e, Before-trans a b c h k)

-- The result is the one that describes the two keys.
pub bytes_cmp_unique : (a b : Bytes) (o : Ordering) → Compares a b o → bytes_cmp a b ≡ o
bytes_cmp_unique a b o h = go (bytes_cmp a b) o (bytes_cmp-Compares a b) h
  where
    go : (p q : Ordering) → Compares a b p → Compares a b q → p ≡ q
    go Ordering.lt Ordering.lt h k = refl
    go Ordering.lt Ordering.eq h k = absurd (Before-irrefl b (subst (λ t. Before t b) k h))
    go Ordering.lt Ordering.gt h k = absurd (Before-irrefl a (Before-trans a b a h k))
    go Ordering.eq Ordering.lt h k = absurd (Before-irrefl b (subst (λ t. Before t b) h k))
    go Ordering.eq Ordering.eq h k = refl
    go Ordering.eq Ordering.gt h k = absurd (Before-irrefl b (subst (λ t. Before b t) h k))
    go Ordering.gt Ordering.lt h k = absurd (Before-irrefl a (Before-trans a b a k h))
    go Ordering.gt Ordering.eq h k = absurd (Before-irrefl b (subst (λ t. Before b t) k h))
    go Ordering.gt Ordering.gt h k = refl
