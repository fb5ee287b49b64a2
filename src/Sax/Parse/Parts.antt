-- ===== src/Sax/Parse/Parts.antt =====
-- What one call of the parser does with the encoding of each kind of value, given its inner calls.
use bencode.Prelude.{
  ℕ, suc, ◌≤◌, Bytes, true, false, Option, none, List, [], ◌∷◌, ◌++◌, length, append_assoc, arith,
}
use bencode.Grammar.{
  Items, Entries, int, str, list, dict, encode, encode_items, encode_entries, encode_bytes,
  IsCanonical, events, events_items, events_entries, on_int, on_string, on_list_begin,
  on_dict_begin,
}
use bencode.Grammar.Laws.{encode_bytes_shape}
use bencode.Prelude.Int.{ℤ}
use bencode.Decimal.{signed}
use bencode.Exec.{Exec}
use bencode.Sax.State.{SaxScope, SaxState, Callbacks, state, internal_max_depth}
use bencode.Sax.Events.{deliver}
use bencode.Sax.Scan.Complete.{parse_string-encode_bytes, parse_int-signed}
use bencode.Sax.Parse.{parse_value, list_loop, dict_loop, dispatch}
use bencode.Sax.Parse.Keys.{scope}
use bencode.Sax.Parse.Steps.{Completes, notify-Completes, open-Completes, dispatch_digit}

module _ {U : Type 0} (cb : Option (Callbacks U)) (max_depth : ℕ)
    (fits : max_depth ≤ internal_max_depth) where
  string_at :
      (lists dicts : Exec (SaxState U) (Unit {0})) (bs rest : Bytes) (scopes : List SaxScope)
      (user : U)
      → IsCanonical (str bs)
      → Completes rest scopes
          (deliver cb (on_string bs ∷ []) user)
          (dispatch cb max_depth lists dicts (state (encode_bytes bs ++ rest) scopes user))
  string_at lists dicts bs rest scopes user sized =
      let (c, cs, digit, e) = encode_bytes_shape bs in
      let read = parse_string-encode_bytes scopes user bs rest sized in
      rw (e, dispatch_digit cb max_depth lists dicts c (cs ++ rest) scopes user (ground arith))
        (rw (rw e at read) (notify-Completes cb (on_string bs) rest scopes user))

  -- One lemma for each way to build a value; the parts are hypotheses.
  pub int_at :
      (f : ℕ) (i : ℤ) (rest : Bytes) (scopes : List SaxScope) (user : U)
      → IsCanonical (int i)
      → Completes rest scopes
          (deliver cb (events (int i)) user)
          (parse_value cb max_depth (suc f) (state (encode (int i) ++ rest) scopes user))
  unfolding parse_value encode events
  int_at f i rest scopes user range =
      rw (append_assoc (signed i) (b'e' ∷ []) rest, parse_int-signed scopes user cb i rest range)
        (notify-Completes cb (on_int i) rest scopes user)

  pub str_at :
      (f : ℕ) (bs rest : Bytes) (scopes : List SaxScope) (user : U)
      → IsCanonical (str bs)
      → Completes rest scopes
          (deliver cb (events (str bs)) user)
          (parse_value cb max_depth (suc f) (state (encode (str bs) ++ rest) scopes user))
  unfolding parse_value encode events
  str_at f bs rest scopes user sized =
      string_at (list_loop cb max_depth f) (dict_loop cb max_depth f) bs rest scopes user sized

  pub list_at :
      (f : ℕ) (xs : Items) (rest : Bytes) (scopes : List SaxScope) (user : U)
      → suc (length scopes) ≤ max_depth
      → ((sc : SaxScope) (u : U)
          → Completes rest scopes
              (deliver cb (events_items xs) u)
              (list_loop cb max_depth f (state (encode_items xs ++ rest) (sc ∷ scopes) u)))
      → Completes rest scopes
          (deliver cb (events (list xs)) user)
          (parse_value cb max_depth (suc f) (state (encode (list xs) ++ rest) scopes user))
  unfolding parse_value encode events
  list_at f xs rest scopes user room inside =
      open-Completes cb max_depth false on_list_begin (events_items xs) (list_loop cb max_depth f) _
        rest scopes user fits room (inside _)

  pub dict_at :
      (f : ℕ) (es : Entries) (rest : Bytes) (scopes : List SaxScope) (user : U)
      → suc (length scopes) ≤ max_depth
      → ((u : U)
          → Completes rest scopes (deliver cb (events_entries es) u) (
              dict_loop cb max_depth f
                (state (encode_entries es ++ rest) (scope true true none ∷ scopes) u)))
      → Completes rest scopes
          (deliver cb (events (dict es)) user)
          (parse_value cb max_depth (suc f) (state (encode (dict es) ++ rest) scopes user))
  unfolding parse_value encode events
  dict_at f es rest scopes user room inside =
      open-Completes cb max_depth true on_dict_begin (events_entries es) (dict_loop cb max_depth f)
        _ rest scopes user fits room inside
