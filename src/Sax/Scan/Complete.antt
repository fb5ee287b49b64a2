-- ===== src/Sax/Scan/Complete.antt =====
-- The scanners read back what the format prescribes, whatever follows it.
use bencode.Prelude.{
  ℕ, suc, ◌+◌, ◌*◌, ◌-◌, ◌≤◌, ◌≡◌, ◌≢◌, ◌⊎◌, refl, Bytes, Bool, true, false, Option, List, [], ◌∷◌,
  ◌++◌, length, ◌==◌, ◌&&◌, if◌then◌else◌, inl, inr, arith, append_assoc, lengths, le→ltb, All,
  take-append, drop-append, length-append,
}
use bencode.Prelude.Int.{ℤ, pos, negsuc, IsInt64, int64_max, size_max}
use bencode.Status.{ok, integer_format}
use bencode.Decimal.{decimal, signed, IsDigit, value}
use bencode.Decimal.Laws.{decimal-IsNumeral}
use bencode.Grammar.{encode_bytes, IsSized, on_int}
use bencode.Exec.{returned, pure, fail}
use bencode.Sax.State.{SaxScope, Callbacks, state, notify, skip_lem}
use bencode.Sax.Scan.{
  is_digit, digits_loop, accumulate, parse_unsigned, expect_byte, take_bytes, parse_string,
  read_minus, max_magnitude, parse_magnitude, parse_int, to_int64,
}
use bencode.Sax.Scan.Ints.{IsLimit-max_magnitude}
use bencode.Sax.Scan.Sound.{IsLimit, starts_digit, guard_exact, step_exact}

le-value : (n : ℕ) (ds : Bytes) → n ≤ value n ds
le-value n [] = omega arith
le-value n (d ∷ ds) = omega (arith, le-value (n * 10 + (d - b'0')) ds)

-- A guard of the loop never refuses a number within the limit.
digits_loop_complete :
    (max_mag acc : ℕ) (ds rest : Bytes)
    → IsLimit max_mag
    → All IsDigit ds
    → value acc ds ≤ max_mag
    → starts_digit rest ≡ false
    → digits_loop max_mag acc (ds ++ rest) ≡ (ok (value acc ds), rest)
unfolding digits_loop
digits_loop_complete max_mag acc [] [] lim all fits ends = refl
digits_loop_complete max_mag acc [] (c ∷ rest) lim all fits ends = rw ends
digits_loop_complete max_mag acc (d ∷ ds) rest lim (digit, all) fits ends =
    let n = acc * 10 + (d - b'0') in
    let low = le-value n ds in
    let is : is_digit d ≡ true = ground arith in
    rw
      (
        is,
        guard_exact max_mag acc (d - b'0') lim (omega arith) (omega arith),
        le→ltb max_mag n (omega arith),
        step_exact max_mag acc (d - b'0') lim (omega arith),
      )
      (digits_loop_complete max_mag n ds rest lim all fits ends)

to_int64_negative : (n : ℕ) → n ≤ int64_max → to_int64 true (suc n) ≡ negsuc n
to_int64_negative n h = ground arith

module _ {U : Type 0} (scopes : List SaxScope) (user : U) where
  unsigned_step :
      (max_mag c : ℕ) (cs : Bytes)
      → is_digit c ≡ true
      → parse_unsigned max_mag (state (c ∷ cs) scopes user)
        ≡ (if c == b'0' && starts_digit cs
              then fail integer_format
              else accumulate max_mag (c - b'0'))
            (state cs scopes user)
  unfolding parse_unsigned
  unsigned_step max_mag c [] d = rw d
  unsigned_step max_mag c (x ∷ cs) d = rw d

  pub parse_unsigned-decimal :
      (max_mag n : ℕ) (rest : Bytes)
      → IsLimit max_mag
      → n ≤ max_mag
      → starts_digit rest ≡ false
      → parse_unsigned max_mag (state (decimal n ++ rest) scopes user)
        ≡ returned (ok n) (state rest scopes user)
  unfolding accumulate
  parse_unsigned-decimal max_mag n rest lim fits ends =
      let w = decimal-IsNumeral n in
      let digit : is_digit w.first ≡ true = ground arith in
      rw (w.shape, unsigned_step max_mag w.first (w.others ++ rest) digit)
        (rw (plain w.first w.others w.no_zero) (
          rw
            (digits_loop_complete max_mag (w.first - b'0') w.others rest lim w.other_digits
              (omega (arith, w.exact)) ends)
            (rw w.exact)))
    where
      plain :
          (c : ℕ) (ds : Bytes)
          → (c ≢ b'0') ⊎ (ds ≡ [])
          → ((c == b'0') && starts_digit (ds ++ rest)) ≡ false
      plain c ds (inl h) = ground arith
      plain c ds (inr e) = rw (e, ends) (ground arith)

  take_bytes-append :
      (bs rest : Bytes)
      → take_bytes (length bs) (state (bs ++ rest) scopes user)
        ≡ returned (ok bs) (state rest scopes user)
  unfolding take_bytes
  take_bytes-append bs rest =
      let fits : length bs ≤ length (bs ++ rest) = omega (lengths, length-append bs rest) in
      rw (
        le→ltb (length (bs ++ rest)) (length bs) fits,
        skip_lem (length bs) (bs ++ rest) (state (bs ++ rest) scopes user) fits,
        take-append bs rest,
        drop-append bs rest,
      )

  -- A string is read back, with any bytes behind it.
  pub parse_string-encode_bytes :
      (bs rest : Bytes)
      → IsSized bs
      → parse_string (state (encode_bytes bs ++ rest) scopes user)
        ≡ returned (ok bs) (state rest scopes user)
  unfolding parse_string encode_bytes expect_byte
  parse_string-encode_bytes bs rest sized =
      rw
        (
          append_assoc (decimal (length bs)) (b':' ∷ bs) rest,
          parse_unsigned-decimal size_max (length bs) (b':' ∷ (bs ++ rest)) (omega arith) sized
              refl,
        )
        (take_bytes-append bs rest)

  no_minus :
      (c : ℕ) (cs : Bytes)
      → is_digit c ≡ true
      → read_minus (state (c ∷ cs) scopes user) ≡ pure false (state (c ∷ cs) scopes user)
  unfolding read_minus
  no_minus c cs d = let e : (c == b'-') ≡ false = ground arith in rw e

  no_minus-decimal :
      (n : ℕ) (rest : Bytes)
      → read_minus (state (decimal n ++ rest) scopes user)
        ≡ pure false (state (decimal n ++ rest) scopes user)
  no_minus-decimal n rest =
      let w = decimal-IsNumeral n in rw w.shape (no_minus w.first (w.others ++ rest) (ground arith))

  module _ (cb : Option (Callbacks U)) where
    magnitude_step :
        (negative : Bool) (mag c : ℕ) (cs rest : Bytes)
        → is_digit c ≡ true
        → parse_unsigned (max_magnitude negative) (state (c ∷ cs) scopes user)
          ≡ returned (ok mag) (state (b'e' ∷ rest) scopes user)
        → (negative && mag == 0) ≡ false
        → parse_magnitude cb negative (state (c ∷ cs) scopes user)
          ≡ notify cb (on_int (to_int64 negative mag)) (state rest scopes user)
    unfolding parse_magnitude
    magnitude_step negative mag c cs rest d e z = rw (d, e, z)

    parse_magnitude-decimal :
        (negative : Bool) (mag : ℕ) (rest : Bytes)
        → mag ≤ max_magnitude negative
        → (negative && mag == 0) ≡ false
        → parse_magnitude cb negative (state (decimal mag ++ (b'e' ∷ rest)) scopes user)
          ≡ notify cb (on_int (to_int64 negative mag)) (state rest scopes user)
    parse_magnitude-decimal negative mag rest fits z =
        let w = decimal-IsNumeral mag in
        let read =
          parse_unsigned-decimal (max_magnitude negative) mag (b'e' ∷ rest)
            (IsLimit-max_magnitude negative) fits refl in
        rw w.shape
          (magnitude_step negative mag w.first _ rest (ground arith) (rw w.shape at read) z)

    -- An integer is read back and reported, INT64_MIN included.
    pub parse_int-signed :
        (i : ℤ) (rest : Bytes)
        → IsInt64 i
        → parse_int cb (state (b'i' ∷ (signed i ++ (b'e' ∷ rest))) scopes user)
          ≡ notify cb (on_int i) (state rest scopes user)
    unfolding parse_int signed
    parse_int-signed (pos n) rest range =
        rw (no_minus-decimal n (b'e' ∷ rest)) (parse_magnitude-decimal false n rest range refl)
    parse_int-signed (negsuc n) rest range =
        rw (parse_magnitude-decimal true (suc n) rest (omega arith) (ground arith))
          (rw (to_int64_negative n range))
