-- ===== src/Sax/Scan/Sound.antt =====
-- What the scanners of src/parse_sax.c accept: canonical numerals and what follows from them.
use bencode.Prelude.{
  ℕ, ◌+◌, ◌*◌, ◌-◌, ◌/◌, ◌≤◌, ◌<◌, ◌≡◌, refl, ◌∙◌, ap, Bytes, Bool, true, false, List, [], ◌∷◌,
  ◌++◌, ◌==◌, ◌&&◌, if◌then◌else◌, arith, ltb, Bool-cases, inl, inr, All,
}
use bencode.Prelude.Int.{size_max}
use bencode.Prelude.Word.{add64, sub64, mul64}
use bencode.Status.{Result, ok, err, integer_overflow, integer_format}
use bencode.Decimal.{IsDigit, value, decimal}
use bencode.Decimal.Laws.{decimal_small, decimal-value}
use bencode.Exec.{fail, lift}
use bencode.Exec.Ensures
use bencode.Exec.Ensures.{Ensures, returns, raises}
use bencode.Sax.State.{SaxState, SaxScope, Keeps, kept, moved, state}
use bencode.Sax.Scan.{is_digit, digits_loop, accumulate}

-- The bounds that the two callers pass.
abbrev pub IsLimit : ℕ → Type 0
IsLimit max_mag = (9 ≤ max_mag) × (max_mag ≤ size_max)

-- The guard of the loop is exact, and neither its subtraction nor the step wraps around.
pub guard_exact :
    (max_mag acc digit : ℕ)
    → IsLimit max_mag
    → digit ≤ 9
    → acc ≤ max_mag
    → ltb (sub64 max_mag digit / 10) acc ≡ ltb max_mag (acc * 10 + digit)
guard_exact max_mag acc digit lim d a =
    let exact : sub64 max_mag digit ≡ max_mag - digit = omega arith in rw exact (ground arith)

pub step_exact :
    (max_mag acc digit : ℕ)
    → IsLimit max_mag
    → acc * 10 + digit ≤ max_mag
    → add64 (mul64 acc 10) digit ≡ acc * 10 + digit
step_exact max_mag acc digit lim h = omega arith

abbrev pub starts_digit : Bytes → Bool
starts_digit [] = false
starts_digit (c ∷ cs) = is_digit c

-- What the loop read off `cs`: all digits up to what is none, which spell the result; or digits
-- whose number is too large.
abbrev pub Scanned : ℕ → ℕ → Bytes → Result ℕ × Bytes → Type 0
Scanned max_mag acc cs (ok v, rest) =
    (ds : Bytes) × (cs ≡ ds ++ rest)
    × All IsDigit ds
    × (value acc ds ≡ v)
    × (v ≤ max_mag)
    × (starts_digit rest ≡ false)
Scanned max_mag acc cs (err e, rest) =
    (ds : Bytes) × (e ≡ integer_overflow)
    × All IsDigit ds
    × (max_mag < value acc ds)
    × ((after : Bytes) × (cs ≡ ds ++ after))

is_digit-IsDigit : (c : ℕ) → is_digit c ≡ true → IsDigit c
is_digit-IsDigit c h = ground arith

-- One more digit in front.
extend :
    (max_mag acc c : ℕ) (cs : Bytes) (o : Result ℕ × Bytes)
    → IsDigit c
    → Scanned max_mag (acc * 10 + (c - b'0')) cs o
    → Scanned max_mag acc (c ∷ cs) o
extend max_mag acc c cs (ok v, rest) d (ds, e, all, exact, fits, ended) =
    (c ∷ ds, rw e, (d, all), exact, fits, ended)
extend max_mag acc c cs (err x, rest) d (ds, e, all, large, (after, split)) =
    (c ∷ ds, e, (d, all), large, (after, rw split))

-- From an accumulator within the limit, which is between 9 and 2 ^ 64 - 1, the digit loop of
-- parse_unsigned either succeeds: it stops at the first byte that is no digit, or at the end, and
-- returns the number that all the digits up to there spell, which is within the limit. Or it fails
-- with BENCODE_ERR_INTEGER_OVERFLOW, and the input begins with digits that spell a number beyond
-- the limit.
pub digits_loop-Scanned :
    (max_mag acc : ℕ) (cs : Bytes)
    → IsLimit max_mag
    → acc ≤ max_mag
    → Scanned max_mag acc cs (digits_loop max_mag acc cs)
unfolding digits_loop
digits_loop-Scanned max_mag acc [] lim h = ([], refl, tt, refl, h, refl)
digits_loop-Scanned max_mag acc (c ∷ cs) lim h = elim (Bool-cases (is_digit c)) [
  | inr other ↦ rw other ([], refl, tt, refl, h, other)
  | inl digit ↦
      rw (digit, guard_exact max_mag acc (c - b'0') lim (ground arith) h)
        (elim (Bool-cases (ltb max_mag (acc * 10 + (c - b'0')))) [
          | inl large ↦
              rw large (c ∷ [], refl, (is_digit-IsDigit c digit, tt), ground arith, (cs, refl))
          | inr fits ↦
              rw (fits, step_exact max_mag acc (c - b'0') lim (ground arith))
                (extend max_mag acc c cs _ (is_digit-IsDigit c digit)
                  (digits_loop-Scanned max_mag (acc * 10 + (c - b'0')) cs lim (ground arith)))
        ])
]

-- The first digit and those that the loop read are the numeral of the result.
decimal_exact :
    (c v : ℕ) (ds rest : Bytes)
    → IsDigit c
    → All IsDigit ds
    → value (c - b'0') ds ≡ v
    → ((c == b'0') && starts_digit (ds ++ rest)) ≡ false
    → c ∷ (ds ++ rest) ≡ decimal v ++ rest
decimal_exact c v [] rest d all e z =
    rw (← e, decimal_small (c - b'0') (omega arith)) (ap (λ x. x ∷ rest) (omega arith))
decimal_exact c v (x ∷ ds) rest d (dx, all) e z =
    rw
      (
        ← e,
        decimal-value (c - b'0') (x ∷ ds) (ground arith) (dx, all),
        decimal_small (c - b'0') (omega arith),
      )
      (ap (λ y. y ∷ x ∷ ds ++ rest) (omega arith))

module _ {U : Type 0} where
  accumulate-Ensures :
      (max_mag acc : ℕ) (s : SaxState U)
      → IsLimit max_mag
      → acc ≤ max_mag
      → Ensures
          (λ v t.
            ((ds : Bytes) × (s.p ≡ ds ++ t.p) × All IsDigit ds × (value acc ds ≡ v))
            × (v ≤ max_mag)
            × Keeps s t)
          (λ _ t. Keeps s t)
          (accumulate max_mag acc s)
  unfolding accumulate
  accumulate-Ensures max_mag acc s lim h =
      go (digits_loop max_mag acc s.p) (digits_loop-Scanned max_mag acc s.p lim h)
    where
      go :
          (o : Result ℕ × Bytes)
          → Scanned max_mag acc s.p o
          → Ensures
              (λ v t.
                ((ds : Bytes) × (s.p ≡ ds ++ t.p) × All IsDigit ds × (value acc ds ≡ v))
                × (v ≤ max_mag)
                × Keeps s t)
              (λ _ t. Keeps s t)
              (lift o.0 (record s { p = o.1 }))
      go (ok v, rest) (ds, e, all, exact, fits, _) = returns ((ds, e, all, exact), fits, kept)
      go (err x, rest) _ = raises kept

  -- What follows the first digit.
  pub tail-Ensures :
      (max_mag c : ℕ) (cs : Bytes) (scopes : List SaxScope) (user : U)
      → IsLimit max_mag
      → is_digit c ≡ true
      → Ensures
          (λ v t.
            (c ∷ cs ≡ decimal v ++ t.p) × (v ≤ max_mag) × Keeps (state (c ∷ cs) scopes user) t)
          (λ _ t. Keeps (state (c ∷ cs) scopes user) t)
          ((if c == b'0' && starts_digit cs
              then fail integer_format
              else accumulate max_mag (c - b'0'))
            (state cs scopes user))
  tail-Ensures max_mag c cs scopes user lim d = elim (Bool-cases ((c == b'0') && starts_digit cs)) [
    | inl zero ↦ rw zero (raises kept)
    | inr plain ↦ rw plain (
        Ensures.mono
          (accumulate-Ensures max_mag (c - b'0') (state cs scopes user) lim (ground arith))
          (λ v t r.
            let (ds, e, all, exact) = r.0 in
            (
              ap (λ x. c ∷ x) e
                  ∙ decimal_exact c v ds t.p (is_digit-IsDigit c d) all exact (rw e at plain),
              r.1,
              moved r.2,
            ))
          (λ _ _ k. moved k))
  ]
