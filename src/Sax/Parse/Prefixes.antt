-- ===== src/Sax/Parse/Prefixes.antt =====
-- What bencode_parse_sax decides, and what it makes of an input that is cut off: no canonical
-- encoding is the beginning of another.
use bencode.Prelude.{
  ℕ, ◌≤◌, ◌≡◌, ◌≢◌, ◌∙◌, ◌⊎◌, inl, inr, refl, sym, ap, subst, Bytes, Option, none, List, [], ◌∷◌,
  ◌++◌, length, arith, append_assoc, append-nil, length-append_bytes,
}
use bencode.Status.{Error, ok, err}
use bencode.Grammar.{Tree, encode, IsCanonical, depth, events, Event}
use bencode.Exec.{Run, returned}
use bencode.Exec.Ensures
use bencode.Exec.Ensures.{Ensures, returns, raises}
use bencode.Sax.State.{Callbacks, fire}
use bencode.Sax.Events.{deliver, deliver-cons}
use bencode.Sax.Parse.{bytes, parse_sax, effective_depth}
use bencode.Sax.Parse.Entry.{Accepted, Interrupted, Reports, parse_sax_sound, parse_sax_complete}

no_bytes : (cs : Bytes) → length cs ≡ 0 → cs ≡ []
no_bytes [] e = refl
no_bytes (c ∷ cs) e = absurd omega (arith, e)

nothing_behind : (xs ys : Bytes) → xs ++ ys ≡ [] → ys ≡ []
nothing_behind xs ys e = no_bytes ys (omega (arith, length-append_bytes xs ys, ap length e))

-- Callbacks that never abort.
abbrev pub Obliges : {U : Type 0} → Option (Callbacks U) → Type 0
Obliges {U} cb = (ev : Event) (u : U) → (v : U) × (fire cb ev u ≡ (ok tt, v))

module _ {U : Type 0} (cb : Option (Callbacks U)) (obliges : Obliges cb) where
  delivered : (es : List Event) (u : U) → (v : U) × (deliver cb es u ≡ (ok tt, v))
  unfolding deliver
  delivered [] u = (u, refl)
  delivered (e ∷ es) u =
      let (v, fired) = obliges e u in
      let (w, sent) = delivered es v in (w, deliver-cons cb e es u fired ∙ sent)

module _ {U : Type 0} (cb : Option (Callbacks U)) (user : U) (max_depth : ℕ) where
  completes :
      (v : Tree) (rest : Bytes) (u : U)
      → deliver cb (events v) user ≡ (ok tt, u)
      → IsCanonical v
      → depth v ≤ effective_depth max_depth
      → parse_sax (bytes (encode v ++ rest)) cb user max_depth
        ≡ returned (ok tt) (u, length (encode v))
  completes v rest u sent canonical shallow =
      subst
        (λ o.
          Reports (length (encode v)) o (parse_sax (bytes (encode v ++ rest)) cb user max_depth))
        sent (parse_sax_complete cb user max_depth v rest canonical shallow)

abbrev count : Run (Unit {0} × ℕ) (Unit {0}) → ℕ
count (returned st (u, n)) = n
count _ = 0

module _ (max_depth : ℕ) where
  validates :
      (v : Tree) (rest : Bytes)
      → IsCanonical v
      → depth v ≤ effective_depth max_depth
      → count (parse_sax (bytes (encode v ++ rest)) none tt max_depth) ≡ length (encode v)
  validates v rest canonical shallow =
      let (u, sent) = delivered none (λ ev u. (u, refl)) (events v) tt in
      ap count (completes none tt max_depth v rest u sent canonical shallow)

  -- The parser counts the same bytes, whichever of two encodings its input begins with.
  pub encode_prefix_free :
      (v w : Tree) (rest : Bytes)
      → IsCanonical v
      → IsCanonical w
      → depth v ≤ effective_depth max_depth
      → depth w ≤ effective_depth max_depth
      → encode w ≡ encode v ++ rest
      → rest ≡ []
  encode_prefix_free v w rest cv cw sv sw e =
      let a : count (parse_sax (bytes (encode w)) none tt max_depth) ≡ length (encode v) =
        subst (λ b. count (parse_sax (bytes b) none tt max_depth) ≡ length (encode v)) (sym e)
          (validates v rest cv sv) in
      let b : count (parse_sax (bytes (encode w)) none tt max_depth) ≡ length (encode w) =
        subst (λ b. count (parse_sax (bytes b) none tt max_depth) ≡ length (encode w))
          (append-nil (encode w)) (validates w [] cw sw) in
      no_bytes rest (omega (arith, a, b, ap length e, length-append_bytes (encode v) rest))

  -- What is behind a value that a canonical encoding begins with, when it is cut off.
  pub nothing_cut :
      (v w : Tree) (front rest back : Bytes)
      → IsCanonical v
      → IsCanonical w
      → depth v ≤ effective_depth max_depth
      → depth w ≤ effective_depth max_depth
      → front ≡ encode v ++ rest
      → encode w ≡ front ++ back
      → back ≡ []
  nothing_cut v w front rest back cv cw sv sw split cut = nothing_behind rest back (
      encode_prefix_free v w (rest ++ back) cv cw sv sw
        (cut ∙ ap (λ x. x ++ back) split ∙ append_assoc (encode v) rest back))

module _ {U : Type 0} (cb : Option (Callbacks U)) (user : U) (max_depth : ℕ) where
  -- Wherever the canonical encoding of a value no deeper than the effective limit is cut off
  -- before its end, bencode_parse_sax returns an error for what is left, whatever the callbacks,
  -- and has called them for the first events of some canonical value at most.
  pub truncated_rejected :
      (v : Tree) (front back : Bytes)
      → IsCanonical v
      → depth v ≤ effective_depth max_depth
      → encode v ≡ front ++ back
      → back ≢ []
      → Ensures
          (λ _ _. ⊥)
          (λ _ t. Interrupted cb user max_depth front t.0)
          (parse_sax (bytes front) cb user max_depth)
  truncated_rejected v front back canonical shallow cut more =
      Ensures.mono (parse_sax_sound cb user max_depth (bytes front))
        (λ _ t (input, same, a).
          let whole : front ≡ input = cc in
          more (
            nothing_cut max_depth a.value v front a.rest back a.canonical canonical a.shallow
              shallow (whole ∙ a.split) cut))
        (λ _ _ q. q)

  -- The input begins with the canonical encoding of `v`, which the limit admits.
  abbrev pub Begins : Bytes → Tree → Type 0
  Begins input v =
      IsCanonical v
      × (depth v ≤ effective_depth max_depth)
      × ((rest : Bytes) × (input ≡ encode v ++ rest))

  abbrev pub Decided : Bytes → Run (U × ℕ) (Unit {0}) → Type 0
  Decided input r =
      ((v : Tree) × Begins input v × ((u : U) × (r ≡ returned (ok tt) (u, length (encode v)))))
      ⊎ (((v : Tree) → Begins input v → ⊥) × ((e : Error) × (s : U × ℕ) × (r ≡ returned (err e) s)))

  failed : (e : Error) (s t : U × ℕ) → returned (err e) s ≡ returned (ok tt) t → ⊥
  failed e s t q = cc

  decide :
      (input : Bytes) (r : Run (U × ℕ) (Unit {0}))
      → Obliges cb
      → parse_sax (bytes input) cb user max_depth ≡ r
      → Ensures
          (λ _ t.
            (inp : Bytes) × (bytes input ≡ bytes inp) × Accepted cb user max_depth inp t.0 t.1)
          (λ _ t. Interrupted cb user max_depth input t.0)
          r
      → Decided input r
  decide input _ obliges run (returns {s} (inp, same, a)) =
      let whole : input ≡ inp = cc in
      inl (
        a.value,
        (a.canonical, a.shallow, (a.rest, whole ∙ a.split)),
        (s.0, ap (λ n. returned (ok tt) (s.0, n)) a.counted),
      )
  decide input _ obliges run (raises {e = x} {s} q) = inr (
    λ v (canonical, shallow, (rest, split)).
        let (u, sent) = delivered cb obliges (events v) user in
        failed x s (u, length (encode v))
          (sym run
            ∙ ap (λ b. parse_sax (bytes b) cb user max_depth) split
            ∙ completes cb user max_depth v rest u sent canonical shallow),
    (x, s, refl),
  )

  -- With callbacks that never abort, or with none, bencode_parse_sax decides on every input
  -- whether it begins with the canonical encoding of a value no deeper than the effective limit:
  -- it returns BENCODE_OK, and consumed is the length of the encoding, or there is no such value
  -- and it returns an error.
  pub parse_sax-Decides :
      (input : Bytes) → Obliges cb → Decided input (parse_sax (bytes input) cb user max_depth)
  parse_sax-Decides input obliges =
      decide input _ obliges refl (parse_sax_sound cb user max_depth (bytes input))
