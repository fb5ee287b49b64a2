-- ===== src/Decimal/Laws.antt =====
-- A number has exactly one numeral without leading zeros.
use bencode.Prelude.{
  ℕ, zero, suc, ◌+◌, ◌/◌, ◌%◌, ◌*◌, ◌-◌, ◌≤◌, ◌<◌, ◌≡◌, refl, sym, ◌∙◌, ◌≢◌, Bytes, [], ◌∷◌, ◌++◌,
  ltb, ◌⊎◌, inl, inr, arith, append_assoc, append-nil, All, All-append, Bool-cases, ltb→lt, ltb→le,
  lt→ltb, le→ltb,
}
use bencode.Decimal.{digits, decimal, IsDigit, value}

-- More fuel changes nothing.
digits-fuel : (f g n : ℕ) → n < f → n < g → digits f n ≡ digits g n
unfolding digits
digits-fuel zero g n h k = absurd (omega arith)
digits-fuel (suc f) zero n h k = absurd (omega arith)
digits-fuel (suc f) (suc g) n h k = elim (Bool-cases (ltb n 10)) [
  | inl small ↦ rw small
  | inr large ↦ rw (large, digits-fuel f g (n / 10) (ground arith) (ground arith))
]

pub decimal_small : (n : ℕ) → n < 10 → decimal n ≡ (b'0' + n) ∷ []
unfolding decimal
decimal_small n h = rw (lt→ltb n 10 h)

pub decimal_large : (n : ℕ) → 10 ≤ n → decimal n ≡ decimal (n / 10) ++ (b'0' + n % 10) ∷ []
unfolding decimal
decimal_large n h =
    rw (le→ltb n 10 h, digits-fuel n (suc (n / 10)) (n / 10) (omega arith) (omega arith))

-- Each further digit extends the numeral of what was read before it.
pub decimal-value :
    (n : ℕ) (cs : Bytes) → 0 < n → All IsDigit cs → decimal (value n cs) ≡ decimal n ++ cs
decimal-value n [] h _ = sym (append-nil (decimal n))
decimal-value n (c ∷ cs) h (d, ds) =
    let m = n * 10 + (c - b'0') in
    decimal-value m cs (omega arith) ds
    ∙ rw
        (
          decimal_large m (omega arith),
          (let e : m / 10 ≡ n = omega arith in e),
          (let e : b'0' + m % 10 ≡ c = omega arith in e),
        )
        (append_assoc (decimal n) (c ∷ []) cs)

-- The shape of a numeral: one digit, or several that do not begin with 0, and its value.
pub record IsNumeral (n : ℕ) (cs : Bytes) : Type 0 where
  pub first : ℕ
  pub others : Bytes
  pub shape : cs ≡ first ∷ others
  pub first_digit : IsDigit first
  pub other_digits : All IsDigit others
  pub no_zero : (first ≢ b'0') ⊎ (others ≡ [])
  pub exact : value (first - b'0') others ≡ n

-- One digit that stands for a positive number is not 0.
alone :
    {n : ℕ} {cs : Bytes} (w : IsNumeral (n / 10) cs) → w.others ≡ [] → w.first ≡ b'0' → 10 ≤ n → ⊥
alone w e z k = let v = rw (e, z) at w.exact in absurd (omega (arith, v))

value-append : (n : ℕ) (cs : Bytes) (c : ℕ) → value n (cs ++ c ∷ []) ≡ value n cs * 10 + (c - b'0')
value-append n [] c = refl
value-append n (x ∷ cs) c = value-append (n * 10 + (x - b'0')) cs c

digits-IsNumeral : (f n : ℕ) → n < f → IsNumeral n (digits f n)
unfolding digits
digits-IsNumeral zero n h = absurd (omega arith)
digits-IsNumeral (suc f) n h = elim (Bool-cases (ltb n 10)) [
  | inl small ↦ rw small (
      let k = ltb→lt n 10 small in
      record {
        first = b'0' + n;
        others = [];
        shape = refl;
        first_digit = omega arith;
        other_digits = tt;
        no_zero = inr refl;
        exact = omega arith;
      })
  | inr large ↦ rw large (extend (digits-IsNumeral f (n / 10) (ground arith)) (ltb→le n 10 large))
]
  where
    extend :
        {cs : Bytes} → IsNumeral (n / 10) cs → 10 ≤ n → IsNumeral n (cs ++ (b'0' + n % 10) ∷ [])
    extend w k = record {
      first = w.first;
      others = w.others ++ (b'0' + n % 10) ∷ [];
      shape = rw w.shape;
      first_digit = w.first_digit;
      other_digits = All-append IsDigit w.others _ w.other_digits (omega arith);
      no_zero = elim w.no_zero [ inl h ↦ inl h | inr e ↦ inl (λ z. alone w e z k) ];
      exact = value-append _ w.others _ ∙ omega (arith, w.exact);
    }

pub decimal-IsNumeral : (n : ℕ) → IsNumeral n (decimal n)
unfolding decimal
decimal-IsNumeral n = digits-IsNumeral (suc n) n (omega arith)
