-- ===== src/Sax/Scan.antt =====
-- src/parse_sax.c: `is_digit`, `parse_unsigned`, `parse_int` and `parse_string`.
pub mod Sound
pub mod Accepts
pub mod Ints
pub mod Complete
use bencode.Prelude.{
  ℕ, ◌-◌, ◌/◌, Bytes, Bool, true, false, not, ◌&&◌, Option, [], ◌∷◌, ltb, leb, ◌==◌, if◌then◌else◌,
  length, take,
}
use bencode.Prelude.Int.{ℤ, pos, negsuc, int64_max, size_max}
use bencode.Prelude.Word.{add64, sub64, mul64}
use bencode.Status.{
  Result, ok, err, truncated, integer_format, integer_overflow, unexpected_byte, string_length,
}
use bencode.Grammar.{on_int}
use bencode.Exec.{Exec, pure, fail, lift, run, ◌>>=◌, ◌>>◌}
use bencode.Sax.State.{SaxState, Callbacks, at_end, peek, advance, notify}

abbrev pub is_digit : ℕ → Bool
is_digit b = leb b'0' b && leb b b'9'

-- The `while` loop of `parse_unsigned`, over the bytes from the cursor on: the result, and where
-- the cursor stops.
unfoldable pub digits_loop : ℕ → ℕ → Bytes → Result ℕ × Bytes
digits_loop max_mag acc [] = (ok acc, [])
digits_loop max_mag acc (c ∷ cs) =
    let digit = c - b'0' in
    let more = digits_loop max_mag (add64 (mul64 acc 10) digit) cs in
    if is_digit c
    then if ltb (sub64 max_mag digit / 10) acc then (err integer_overflow, c ∷ cs) else more
    else (ok acc, c ∷ cs)

module _ {U : Type 0} where
  unfoldable pub accumulate : ℕ → ℕ → Exec (SaxState U) ℕ
  unfolding digits_loop
  accumulate max_mag acc s =
      let (r, rest) = digits_loop max_mag acc s.p in lift r (record s { p = rest })

  -- `!at_end(s) && is_digit(peek(s))`
  unfoldable pub digit_next : Exec (SaxState U) Bool
  unfolding at_end peek
  digit_next = do over ← at_end; if over then pure false else do b ← peek; pure (is_digit b)

  unfoldable pub parse_unsigned : ℕ → Exec (SaxState U) ℕ
  unfolding digit_next advance
  parse_unsigned max_mag = do
    starts ← digit_next
    if not starts then (do over ← at_end; fail (if over then truncated else integer_format)) else do
      first ← peek
      advance 1
      again ← digit_next
      if first == b'0' && again then fail integer_format else accumulate max_mag (first - b'0')

  -- `if (at_end(s) || peek(s) != b) { return at_end(s) ? TRUNCATED : UNEXPECTED_BYTE; } s->p++;`
  unfoldable pub expect_byte : ℕ → Exec (SaxState U) (Unit {0})
  unfolding at_end peek advance
  expect_byte b = do
    over ← at_end
    if over then fail truncated else do c ← peek; if c == b then advance 1 else fail unexpected_byte

  -- `if (!at_end(s) && peek(s) == '-') { negative = 1; s->p++; }`
  unfoldable pub read_minus : Exec (SaxState U) Bool
  unfolding at_end peek advance
  read_minus = do
    over ← at_end
    if over
        then pure false
        else do b ← peek; if b == b'-' then advance 1 >> pure true else pure false

-- The conversion of sign and magnitude to `int64_t`; `negsuc (mag - 1)` is -mag. INT64_MIN has
-- its own branch, since its magnitude is no `int64_t`.
abbrev pub to_int64 : Bool → ℕ → ℤ
to_int64 negative mag =
    if negative
    then if mag == add64 int64_max 1 then negsuc int64_max else negsuc (mag - 1)
    else pos mag

-- The largest magnitude: |INT64_MIN| for a negative number, INT64_MAX for another.
abbrev pub max_magnitude : Bool → ℕ
max_magnitude negative = if negative then add64 int64_max 1 else int64_max

module _ {U : Type 0} (cb : Option (Callbacks U)) where
  -- `parse_int` from the digits on.
  unfoldable pub parse_magnitude : Bool → Exec (SaxState U) (Unit {0})
  unfolding at_end peek expect_byte
  parse_magnitude negative = do
    over ← at_end
    if over then fail truncated else do
      b ← peek
      if not (is_digit b) then fail integer_format else do
        mag ← parse_unsigned (max_magnitude negative)
        if negative && mag == 0
            then fail integer_format
            else do expect_byte b'e'; notify cb (on_int (to_int64 negative mag))

  unfoldable pub parse_int : Exec (SaxState U) (Unit {0})
  unfolding advance read_minus parse_magnitude
  parse_int = do advance 1; negative ← read_minus; parse_magnitude negative

module _ {U : Type 0} where
  unfoldable pub take_bytes : ℕ → Exec (SaxState U) Bytes
  unfolding advance
  take_bytes len s =
      let bytes = take len s.p in
      if ltb (length s.p) len then fail string_length s else run s (advance len >> pure bytes)

  unfoldable pub parse_string : Exec (SaxState U) Bytes
  unfolding expect_byte take_bytes
  parse_string = do len ← parse_unsigned size_max; expect_byte b':'; take_bytes len
