-- ===== src/Sax/Parse/Entry.antt =====
-- `bencode_parse_sax` accepts exactly the canonical encodings within the depth limit.
use bencode.Prelude.{
  ℕ, ◌-◌, ◌≤◌, ◌≡◌, refl, ◌∙◌, ap, Bytes, Option, [], ◌∷◌, ◌++◌, ◌==◌, length, arith, lengths,
  length-append,
}
use bencode.Prelude.Int.{pos}
use bencode.Status.{Status, ok, err}
use bencode.Grammar.{Tree, int, encode, IsCanonical, depth, events}
use bencode.Grammar.Laws.{encode_shape}
use bencode.Exec.{Run, returned}
use bencode.Exec.Ensures
use bencode.Exec.Ensures.{Ensures, returns, raises, Ensures-returned}
use bencode.Sax.State.{SaxState, Callbacks, state, internal_max_depth}
use bencode.Sax.Events.{deliver, Breaks, Breaks-none}
use bencode.Sax.Parse.{
  Buffer, null, bytes, parse_value, parse_sax, effective_depth, with_consumed, fuel_for,
}
use bencode.Sax.Parse.Spec.{ReadsValue, BreaksValue}
use bencode.Sax.Parse.Steps.{Completes}
use bencode.Sax.Parse.Sound.{parse_value_sound}
use bencode.Sax.Parse.Complete.{parse_value_complete}

-- 0 selects the default of 64, and 256 is the limit whatever the caller asks for.
pub effective_depth-le : (max_depth : ℕ) → effective_depth max_depth ≤ internal_max_depth
unfolding effective_depth
effective_depth-le max_depth = ground arith

module _ {U : Type 0} where
  -- What a call does with a canonical value at the front of its input.
  abbrev pub Reports : ℕ → Status × U → Run (U × ℕ) (Unit {0}) → Type 0
  Reports consumed (ok _, u) r = r ≡ returned (ok tt) (u, consumed)
  Reports consumed (err x, u) r = (n : ℕ) × (r ≡ returned (err x) (u, n))

-- The bytes of a buffer; NULL has none.
abbrev pub given : Buffer → Bytes
given (null n) = []
given (bytes cs) = cs

module _ {U : Type 0} (cb : Option (Callbacks U)) (user : U) (max_depth : ℕ) where
  -- The value, its encoding at the front of the input, the count, and the callbacks made.
  pub record Accepted (input : Bytes) (user' : U) (consumed : ℕ) : Type 0 where
    pub value : Tree
    pub rest : Bytes
    pub canonical : IsCanonical value
    pub shallow : depth value ≤ effective_depth max_depth
    pub split : input ≡ encode value ++ rest
    pub counted : consumed ≡ length (encode value)
    pub sent : deliver cb (events value) user ≡ (ok tt, user')

  -- The callbacks were called for the first events of a value, with whose bytes the input begins,
  -- up to the first callback that did not return BENCODE_OK.
  pub record Interrupted (input : Bytes) (user' : U) : Type 0 where
    pub value : Tree
    pub canonical : IsCanonical value
    pub shallow : depth value ≤ effective_depth max_depth
    pub breaks : Breaks cb input (events value) user user'

  interrupted : (input : Bytes) {u : U} → u ≡ user → Interrupted input u
  interrupted input e = record {
    value = int (pos 0);
    canonical = omega arith;
    shallow = omega arith;
    breaks = Breaks-none cb input (events (int (pos 0))) e;
  }

  consumed_exact :
      (v : Tree) (rest : Bytes) → length (encode v ++ rest) - length rest ≡ length (encode v)
  consumed_exact v rest = omega (arith, length-append (encode v) rest)

  entry_Ensures :
      (input : Bytes)
      → Ensures
          (λ _ t. Accepted input t.0 t.1)
          (λ _ t. Interrupted input t.0)
          (with_consumed input
            (parse_value cb (effective_depth max_depth) (fuel_for input) (state input [] user)))
  entry_Ensures input = go _ (
      parse_value_sound cb (effective_depth max_depth) (effective_depth-le max_depth)
        (fuel_for input) input [] user (omega arith) (omega arith))
    where
      go :
          (r : Run (SaxState U) (Unit {0}))
          → Ensures
              (λ _ t. ReadsValue cb (effective_depth max_depth) input [] user t)
              (λ _ t. BreaksValue cb (effective_depth max_depth) input [] user t)
              r
          → Ensures
              (λ _ t. Accepted input t.0 t.1)
              (λ _ t. Interrupted input t.0)
              (with_consumed input r)
      go r (returns {s} (v, canonical, shallow, split, _, sent)) = returns (record {
        value = v;
        rest = s.p;
        canonical = canonical;
        shallow = omega arith;
        split = split;
        counted = ap (λ x. length x - length s.p) split ∙ consumed_exact v s.p;
        sent = sent;
      })
      go r (raises (_, (v, canonical, shallow, breaks))) =
          raises
            (record { value = v; canonical = canonical; shallow = omega arith; breaks = breaks })

  -- Every call of `bencode_parse_sax` returns. It reads within the input and writes within the
  -- scope stack, and a success means that a canonical value of admissible depth was read: its
  -- encoding is what was consumed, and the callbacks were called for exactly its events. A failure
  -- means that they were called for the first events of such a value, with whose bytes the input
  -- begins, in order, up to the first that did not return BENCODE_OK.
  pub parse_sax_sound :
      (b : Buffer)
      → Ensures
          (λ _ t. (input : Bytes) × (b ≡ bytes input) × Accepted input t.0 t.1)
          (λ _ t. Interrupted (given b) t.0)
          (parse_sax b cb user max_depth)
  unfolding parse_sax
  parse_sax_sound (null n) =
      Ensures.branch (n == 0) (λ _. raises (interrupted [] refl))
        (λ _. raises (interrupted [] refl))
  parse_sax_sound (bytes []) = raises (interrupted [] refl)
  parse_sax_sound (bytes (c ∷ cs)) =
      Ensures.mono (entry_Ensures (c ∷ cs)) (λ _ t a. (c ∷ cs, refl, a)) (λ _ _ q. q)

  -- A value is never empty, so the parser is run.
  parse_sax_nonempty :
      (v : Tree) (rest : Bytes)
      → parse_sax (bytes (encode v ++ rest)) cb user max_depth
        ≡ with_consumed (encode v ++ rest) (
            parse_value cb
              (effective_depth max_depth)
              (fuel_for (encode v ++ rest))
              (state (encode v ++ rest) [] user))
  parse_sax_nonempty v rest = let (c, cs, _, e) = encode_shape v in rw e (unfold parse_sax in refl)

  -- On a canonical value of admissible depth, with any bytes behind it, the call succeeds and
  -- reports the length of its encoding, unless a callback aborts: then the status is that of the
  -- first callback that did, and no callback is called after it.
  pub parse_sax_complete :
      (v : Tree) (rest : Bytes)
      → IsCanonical v
      → depth v ≤ effective_depth max_depth
      → Reports
          (length (encode v))
          (deliver cb (events v) user)
          (parse_sax (bytes (encode v ++ rest)) cb user max_depth)
  parse_sax_complete v rest canonical shallow = rw (parse_sax_nonempty v rest) (
      go (deliver cb (events v) user) _ (
        parse_value_complete cb (effective_depth max_depth) (effective_depth-le max_depth) v
          (fuel_for (encode v ++ rest)) rest [] user canonical (omega arith)
          (omega (lengths, length-append (encode v) rest))))
    where
      go :
          (o : Status × U) (r : Run (SaxState U) (Unit {0}))
          → Completes rest [] o r
          → Reports (length (encode v)) o (with_consumed (encode v ++ rest) r)
      go (ok _, u) r e = rw (e, consumed_exact v rest)
      go (err x, u) r (p, e) = (length (encode v ++ rest) - length p, rw e)
