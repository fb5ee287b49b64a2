-- ===== src/Sax/Scan/Ints.antt =====
-- What `parse_int` accepts.
use bencode.Prelude.{
  ℕ, suc, ◌-◌, ◌≤◌, ◌≡◌, refl, ◌∙◌, ap, subst, Bytes, Bool, true, false, List, [], ◌∷◌, ◌++◌, ◌==◌,
  ◌&&◌, if◌then◌else◌, arith, Bool-cases, ◌⊎◌, inl, inr, Option,
}
use bencode.Prelude.Int.{ℤ, IsInt64}
use bencode.Status.{ok, integer_format}
use bencode.Decimal.{decimal, signed}
use bencode.Grammar.{on_int}
use bencode.Exec.Ensures
use bencode.Exec.Ensures.{Ensures, returns, raises}
use bencode.Sax.State.{
  SaxState, SaxScope, Callbacks, fire, Aborts, notify, notify-Ensures, state, Keeps, kept,
  Keeps-trans,
}
use bencode.Exec.{fail, ◌>>◌}
use bencode.Sax.Scan.Sound.{IsLimit}
use bencode.Sax.Scan.{expect_byte, is_digit, to_int64, max_magnitude, parse_magnitude, parse_int}
use bencode.Sax.Scan.Accepts.{unsigned_at, expect_at, minus_at}

abbrev with_sign : Bool → Bytes → Bytes
with_sign negative digits = if negative then b'-' ∷ digits else digits

-- The conversion stays in range and keeps sign and magnitude, at INT64_MIN too.
to_int64_exact :
    (negative : Bool) (mag : ℕ)
    → mag ≤ max_magnitude negative
    → (negative && mag == 0) ≡ false
    → IsInt64 (to_int64 negative mag)
      × (signed (to_int64 negative mag) ≡ with_sign negative (decimal mag))
unfolding signed
to_int64_exact false mag h z = (h, refl)
to_int64_exact true mag h z = elim (Bool-cases (mag == 9223372036854775808)) [
  | inl e ↦ rw e (
    omega arith,
    let k : 9223372036854775808 ≡ mag = ground arith in ap (λ n. b'-' ∷ decimal n) k,
  )
  | inr e ↦
      rw e
        (ground arith, let k : suc (mag - 1) ≡ mag = ground arith in ap (λ n. b'-' ∷ decimal n) k)
]

with_sign-append :
    (negative : Bool) (ds rest : Bytes)
    → with_sign negative (ds ++ rest) ≡ with_sign negative ds ++ rest
with_sign-append true ds rest = refl
with_sign-append false ds rest = refl

pub IsLimit-max_magnitude : (negative : Bool) → IsLimit (max_magnitude negative)
IsLimit-max_magnitude true = omega arith
IsLimit-max_magnitude false = omega arith

module _ {U : Type 0} (cb : Option (Callbacks U)) where
  -- The text of an integer after `i`, and the one call of the callback.
  abbrev pub ReadsInt : Bytes → List SaxScope → U → SaxState U → Type 0
  ReadsInt p scopes user t =
      (i : ℤ) × IsInt64 i
      × (p ≡ signed i ++ (b'e' ∷ t.p))
      × (t.scopes ≡ scopes)
      × (fire cb (on_int i) user ≡ (ok tt, t.user))

  -- The callback was not called; or once, with the integer that stands there in full, and aborted.
  abbrev pub QuietOrAborted : Bytes → U → U → Type 0
  QuietOrAborted p user u =
      (u ≡ user)
      ⊎ ((i : ℤ) × (rest : Bytes) × IsInt64 i
          × (p ≡ signed i ++ (b'e' ∷ rest))
          × Aborts cb (on_int i) user u)

  abbrev pub BreaksInt : Bytes → List SaxScope → U → SaxState U → Type 0
  BreaksInt p scopes user t = (t.scopes ≡ scopes) × QuietOrAborted p user t.user

  moved_break :
      {p q : Bytes} {user v : U} (u : U)
      → v ≡ user
      → p ≡ q
      → QuietOrAborted q v u
      → QuietOrAborted p user u
  moved_break u same e (inl quiet) = inl (quiet ∙ same)
  moved_break u same e (inr (i, rest, range, read, aborts)) =
      inr (i, rest, range, e ∙ read, subst (λ x. Aborts cb (on_int i) x u) same aborts)

  breaks_kept :
      {p : Bytes} {scopes : List SaxScope} {user : U} {t : SaxState U} (input : Bytes)
      → Keeps (state p scopes user) t
      → BreaksInt input scopes user t
  breaks_kept input k = (k.scopes_kept, inl k.user_kept)

  -- The tests behind the digits, the closing byte and the callback.
  finish :
      (negative : Bool) (mag : ℕ) (scopes : List SaxScope) (user : U) {p : Bytes} (t : SaxState U)
      → mag ≤ max_magnitude negative
      → Keeps (state p scopes user) t
      → Ensures
          (λ _ u. ReadsInt (with_sign negative (decimal mag ++ t.p)) scopes user u)
          (λ _ u. BreaksInt (with_sign negative (decimal mag ++ t.p)) scopes user u)
          ((if negative && mag == 0
              then fail integer_format
              else expect_byte b'e' >> notify cb (on_int (to_int64 negative mag)))
            t)
  finish negative mag scopes user t fits k = elim (Bool-cases (negative && mag == 0)) [
    | inl zero ↦ rw zero (raises (breaks_kept _ k))
    | inr nonzero ↦ rw nonzero (
        let (range, text) = to_int64_exact negative mag fits nonzero in
        Ensures.bind (expect_at t.scopes t.user b'e' t.p)
          (λ _ t₂ (e₂, k₂).
            Ensures.mono (notify-Ensures cb (on_int (to_int64 negative mag)) t₂)
              (λ _ t₃ (e₃, same, fired). (
                to_int64 negative mag,
                range,
                rw (text, e₂, ← e₃) (with_sign-append negative (decimal mag) (b'e' ∷ t₃.p)),
                same ∙ (k₂.scopes_kept ∙ k.scopes_kept),
                rw (← k₂.user_kept ∙ k.user_kept) fired,
              ))
              (λ _ t₃ (same, aborts). (
                same ∙ (k₂.scopes_kept ∙ k.scopes_kept),
                inr (
                  to_int64 negative mag,
                  t₂.p,
                  range,
                  rw (text, e₂) (with_sign-append negative (decimal mag) (b'e' ∷ t₂.p)),
                  subst (λ u. Aborts cb (on_int (to_int64 negative mag)) u t₃.user)
                      (k₂.user_kept ∙ k.user_kept) aborts,
                ),
              )))
          (λ _ _ k₂. breaks_kept _ (Keeps-trans k k₂)))
  ]

  magnitude_at :
      (negative : Bool) (p : Bytes) (scopes : List SaxScope) (user : U)
      → Ensures
          (λ _ t. ReadsInt (with_sign negative p) scopes user t)
          (λ _ t. BreaksInt (with_sign negative p) scopes user t)
          (parse_magnitude cb negative (state p scopes user))
  unfolding parse_magnitude
  magnitude_at negative [] scopes user = raises (breaks_kept {p = []} _ (kept {q = []}))
  magnitude_at negative (c ∷ cs) scopes user = elim (Bool-cases (is_digit c)) [
    | inr other ↦ rw other (raises (breaks_kept {p = c ∷ cs} _ (kept {q = c ∷ cs})))
    | inl digit ↦ rw digit (
        Ensures.bind
          (unsigned_at scopes user (max_magnitude negative) (c ∷ cs)
            (IsLimit-max_magnitude negative))
          (λ mag t₁ (e₁, fits, k₁). (rw e₁ (finish negative mag scopes user t₁ fits k₁)))
          (λ _ _ k. breaks_kept _ k))
  ]

  -- Behind an `i`, a call returns without reading beyond the input. On success the input goes on with
  -- the canonical text of an integer in the range of `int64_t` and an `e`, and the callback was
  -- called once, with that integer, and returned BENCODE_OK; otherwise it was not called, or the
  -- input goes on with such a text all the same, and it was called once, with that integer, and
  -- aborted. The scope stack is as it was in any case.
  pub parse_int-Ensures :
      (cs : Bytes) (scopes : List SaxScope) (user : U)
      → Ensures
          (λ _ t. ReadsInt cs scopes user t)
          (λ _ t. BreaksInt cs scopes user t)
          (parse_int cb (state (b'i' ∷ cs) scopes user))
  unfolding parse_int
  parse_int-Ensures cs scopes user =
      Ensures.bind (minus_at scopes user cs)
        (λ negative t₁ (e₁, k₁).
          Ensures.mono (magnitude_at negative t₁.p t₁.scopes t₁.user)
            (λ _ t (i, range, e, same, fired).
              (i, range, e₁ ∙ e, same ∙ k₁.scopes_kept, rw (← k₁.user_kept) fired))
            (λ _ t (same, why). (same ∙ k₁.scopes_kept, moved_break t.user k₁.user_kept e₁ why)))
        (λ _ _ k. breaks_kept _ k)
