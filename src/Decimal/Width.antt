-- ===== src/Decimal/Width.antt =====
-- How long a printed number is: the buffers of the emitter hold every `size_t` and `int64_t`.
use bencode.Prelude.{
  ℕ, zero, suc, ◌+◌, ◌*◌, ◌/◌, ◌%◌, ◌≤◌, ◌<◌, Bool-cases, inl, inr, [], ◌∷◌, length, ltb, lt→ltb,
  arith, length-append_bytes,
}
use bencode.Prelude.Int.{ℤ, pos, negsuc, IsInt64, size_max}
use bencode.Decimal.{digits, decimal, signed}

abbrev tens : ℕ → ℕ
tens zero = 1
tens (suc k) = tens k * 10

length-digits : (f k n : ℕ) → n < tens (suc k) → length (digits f n) ≤ suc k
unfolding digits
length-digits zero k n small = omega arith
length-digits (suc f) zero n small = rw (lt→ltb n 10 (omega arith)) (omega arith)
length-digits (suc f) (suc k) n small = elim (Bool-cases (ltb n 10)) [
  | inl short ↦ rw short (omega arith)
  | inr long ↦ rw long (
      omega (
        arith,
        length-append_bytes (digits f (n / 10)) ((b'0' + n % 10) ∷ []),
        length-digits f k (n / 10) (omega arith),
      ))
]

-- 20 digits hold every `size_t`.
pub length-decimal : (n : ℕ) → n ≤ size_max → length (decimal n) ≤ 20
unfolding decimal
length-decimal n small = length-digits (suc n) 19 n (omega arith)

pub length-signed : (i : ℤ) → IsInt64 i → length (signed i) ≤ 21
unfolding signed
length-signed (pos n) small = omega (arith, length-decimal n (omega arith))
length-signed (negsuc n) small = omega (arith, length-decimal (suc n) (omega arith))
