-- ===== src/Sax/Scan/Accepts.antt =====
-- What `parse_unsigned`, `parse_string` and `parse_int` accept, and what they leave alone.
use bencode.Prelude.{
  ℕ, ◌≤◌, ◌≡◌, refl, sym, ap, Bytes, List, [], ◌∷◌, ◌++◌, append_assoc, ◌==◌, if◌then◌else◌, arith,
  ==_iff, Bool-cases, inl, inr, length, take-append-drop, length-take, ltb, ltb→le,
}
use bencode.Prelude.Int.{size_max}
use bencode.Decimal.{decimal}
use bencode.Grammar.{encode_bytes, IsSized}
use bencode.Exec.Ensures
use bencode.Exec.Ensures.{Ensures, returns, raises}
use bencode.Sax.State.{SaxState, SaxScope, skip_lem, state, Keeps, kept, Keeps-trans}
use bencode.Sax.Scan.{is_digit, parse_unsigned, expect_byte, read_minus, take_bytes, parse_string}
use bencode.Sax.Scan.Sound.{IsLimit, tail-Ensures}

module _ {U : Type 0} (scopes : List SaxScope) (user : U) where
  pub unsigned_at :
      (max_mag : ℕ) (p : Bytes)
      → IsLimit max_mag
      → Ensures
          (λ v t. (p ≡ decimal v ++ t.p) × (v ≤ max_mag) × Keeps (state p scopes user) t)
          (λ _ t. Keeps (state p scopes user) t)
          (parse_unsigned max_mag (state p scopes user))
  unfolding parse_unsigned
  unsigned_at max_mag [] lim = raises kept
  unsigned_at max_mag (c ∷ []) lim = elim (Bool-cases (is_digit c)) [
    | inl d ↦ rw d (tail-Ensures max_mag c [] scopes user lim d)
    | inr d ↦ rw d (raises kept)
  ]
  unsigned_at max_mag (c ∷ x ∷ cs) lim = elim (Bool-cases (is_digit c)) [
    | inl d ↦ rw d (tail-Ensures max_mag c (x ∷ cs) scopes user lim d)
    | inr d ↦ rw d (raises kept)
  ]

  pub expect_at :
      (b : ℕ) (p : Bytes)
      → Ensures
          (λ _ t. (p ≡ b ∷ t.p) × Keeps (state p scopes user) t)
          (λ _ t. Keeps (state p scopes user) t)
          (expect_byte b (state p scopes user))
  unfolding expect_byte
  expect_at b [] = raises kept
  expect_at b (c ∷ cs) = elim (Bool-cases (c == b)) [
    | inl e ↦ rw e (returns (ap (λ x. x ∷ cs) ((==_iff c b).0 e), kept))
    | inr e ↦ rw e (raises kept)
  ]

  pub minus_at :
      (p : Bytes)
      → Ensures
          (λ m t. (p ≡ (if m then b'-' ∷ t.p else t.p)) × Keeps (state p scopes user) t)
          (λ _ t. Keeps (state p scopes user) t)
          (read_minus (state p scopes user))
  unfolding read_minus
  minus_at [] = returns (refl, kept)
  minus_at (c ∷ cs) = elim (Bool-cases (c == b'-')) [
    | inl e ↦ rw e (returns (ap (λ x. x ∷ cs) ((==_iff c b'-').0 e), kept))
    | inr e ↦ rw e (returns (refl, kept))
  ]

  take_at :
      (len : ℕ) (p : Bytes)
      → Ensures
          (λ bs t. (p ≡ bs ++ t.p) × (length bs ≡ len) × Keeps (state p scopes user) t)
          (λ _ t. Keeps (state p scopes user) t)
          (take_bytes len (state p scopes user))
  unfolding take_bytes
  take_at len p = elim (Bool-cases (ltb (length p) len)) [
    | inl short ↦ rw short (raises kept)
    | inr enough ↦
        let fits = ltb→le (length p) len enough in
        rw (enough, skip_lem len p (state p scopes user) fits)
          (returns (sym (take-append-drop len p), length-take len p fits, kept))
  ]

module _ {U : Type 0} where
  -- An accepted string is the canonical encoding of the bytes returned.
  pub parse_string-Ensures :
      (s : SaxState U)
      → Ensures
          (λ bs t. (s.p ≡ encode_bytes bs ++ t.p) × IsSized bs × Keeps s t)
          (λ _ t. Keeps s t)
          (parse_string s)
  unfolding parse_string encode_bytes
  parse_string-Ensures s =
      Ensures.bind (unsigned_at s.scopes s.user size_max s.p (omega arith))
        (λ len t₁ (e₁, fits, k₁).
          Ensures.bind (expect_at t₁.scopes t₁.user b':' t₁.p)
            (λ _ t₂ (e₂, k₂).
              Ensures.mono (take_at t₂.scopes t₂.user len t₂.p)
                (λ bs t₃ (e₃, size, k₃). (
                  simp (e₁, e₂, e₃, size, append_assoc),
                  omega (arith, size),
                  Keeps-trans (Keeps-trans k₁ k₂) k₃,
                ))
                (λ _ t₃ k₃. Keeps-trans (Keeps-trans k₁ k₂) k₃))
            (λ _ t₂ k₂. Keeps-trans k₁ k₂))
        (λ _ _ k. k)
