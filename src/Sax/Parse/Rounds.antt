-- ===== src/Sax/Parse/Rounds.antt =====
-- What one round of a loop does with the encoding of an item or an entry, given its inner calls.
use bencode.Prelude.{
  ℕ, suc, ◌≤◌, ◌≡◌, Bytes, Bool, true, false, Option, none, some, List, [], ◌∷◌, ◌++◌, append_assoc,
  arith,
}
use bencode.Grammar.{
  Tree, Items, Entries, str, no_items, item, no_entries, entry, encode, encode_items,
  encode_entries, encode_bytes, IsCanonical, events, events_items, events_entries, on_string,
  on_list_end, on_dict_end,
}
use bencode.Grammar.Laws.{encode_shape, encode_bytes_shape}
use bencode.Exec.{or_else, ◌>>◌}
use bencode.Sax.State.{SaxScope, SaxState, Callbacks, state, pop_scope, internal_max_depth}
use bencode.Sax.Events.{deliver}
use bencode.Sax.Scan.Complete.{parse_string-encode_bytes}
use bencode.Sax.Parse.{parse_value, list_loop, dict_loop, parse_dict_key, expect_key}
use bencode.Sax.Parse.Spec.{AfterLast}
use bencode.Sax.Parse.Keys.{KeyAfter, scope}
use bencode.Sax.Parse.Steps.{
  Completes, notify-Completes, then-Completes, accept_key-Completes, list_round_item,
  dict_round_item, parse_dict_key_digit,
}

pub AfterLast→KeyAfter :
    (last : Option Bytes) (k : Bytes) (t : Tree) (es : Entries)
    → AfterLast last (entry k t es)
    → KeyAfter last k
AfterLast→KeyAfter none k t es h = tt
AfterLast→KeyAfter (some l) k t es h = h

module _ {U : Type 0} (cb : Option (Callbacks U)) (max_depth : ℕ)
    (fits : max_depth ≤ internal_max_depth) where
  key_at :
      (k rest : Bytes) (is_dict : Bool) (last : Option Bytes) (scopes : List SaxScope) (user : U)
      → IsCanonical (str k)
      → KeyAfter last k
      → Completes rest
          (scope is_dict false (some k) ∷ scopes)
          (deliver cb (on_string k ∷ []) user)
          (parse_dict_key cb
            (state (encode_bytes k ++ rest) (scope is_dict true last ∷ scopes) user))
  key_at k rest is_dict last scopes user sized later =
      let (c, cs, digit, e) = encode_bytes_shape k in
      let read = parse_string-encode_bytes (scope is_dict true last ∷ scopes) user k rest sized in
      rw
        (
          e,
          parse_dict_key_digit cb c (cs ++ rest) (scope is_dict true last ∷ scopes) user
              (ground arith),
        )
        (rw (rw e at read) (accept_key-Completes cb k rest is_dict last scopes user later))

  pub no_items_at :
      (f : ℕ) (rest : Bytes) (sc : SaxScope) (scopes : List SaxScope) (user : U)
      → Completes rest scopes (deliver cb (events_items no_items) user) (
          list_loop cb max_depth (suc f) (state (encode_items no_items ++ rest) (sc ∷ scopes) user))
  unfolding parse_value encode events
  no_items_at f rest sc scopes user = notify-Completes cb on_list_end rest scopes user

  -- The rounds at the first byte of an item.
  list_loop_item :
      (f : ℕ) (v : Tree) (more : Bytes) (scopes : List SaxScope) (user : U)
      → list_loop cb max_depth (suc f) (state (encode v ++ more) scopes user)
        ≡ (or_else (parse_value cb max_depth f) pop_scope >> list_loop cb max_depth f)
            (state (encode v ++ more) scopes user)
  unfolding parse_value
  list_loop_item f v more scopes user =
      let (c, cs, item_byte, e) = encode_shape v in
      rw e (
        list_round_item cb (parse_value cb max_depth f) (list_loop cb max_depth f) c (cs ++ more)
          scopes user item_byte)

  dict_loop_value :
      (f : ℕ) (v : Tree) (more : Bytes) (is_dict : Bool) (last : Option Bytes)
      (scopes : List SaxScope) (user : U)
      → let s : SaxState U = state (encode v ++ more) (scope is_dict false last ∷ scopes) user in
        dict_loop cb max_depth (suc f) s
        ≡ (or_else (parse_value cb max_depth f) pop_scope
              >> (expect_key >> dict_loop cb max_depth f))
            s
  unfolding parse_value
  dict_loop_value f v more is_dict last scopes user =
      let (c, cs, item_byte, e) = encode_shape v in
      rw e
        (dict_round_item cb (parse_value cb max_depth f) (dict_loop cb max_depth f) c (cs ++ more)
          is_dict last scopes user item_byte).1

  dict_loop_key :
      (f : ℕ) (k more : Bytes) (is_dict : Bool) (last : Option Bytes) (scopes : List SaxScope)
      (user : U)
      → let s : SaxState U =
          state (encode_bytes k ++ more) (scope is_dict true last ∷ scopes) user in
        dict_loop cb max_depth (suc f) s
        ≡ (or_else (parse_dict_key cb) pop_scope >> dict_loop cb max_depth f) s
  unfolding parse_value
  dict_loop_key f k more is_dict last scopes user =
      let (c, cs, digit, e) = encode_bytes_shape k in
      rw e
        (dict_round_item cb (parse_value cb max_depth f) (dict_loop cb max_depth f) c (cs ++ more)
          is_dict last scopes user (omega arith)).0

  pub item_at :
      (f : ℕ) (v : Tree) (xs : Items) (rest : Bytes) (sc : SaxScope) (scopes : List SaxScope)
      (user : U)
      → Completes (encode_items xs ++ rest) (sc ∷ scopes) (deliver cb (events v) user) (
          parse_value cb max_depth f
            (state (encode v ++ (encode_items xs ++ rest)) (sc ∷ scopes) user))
      → ((u : U)
          → Completes rest scopes
              (deliver cb (events_items xs) u)
              (list_loop cb max_depth f (state (encode_items xs ++ rest) (sc ∷ scopes) u)))
      → Completes rest scopes (deliver cb (events_items (item v xs)) user) (
          list_loop cb max_depth
            (suc f)
            (state (encode_items (item v xs) ++ rest) (sc ∷ scopes) user))
  unfolding encode events
  item_at f v xs rest sc scopes user first next =
      rw
        (
          append_assoc (encode v) (encode_items xs) rest,
          list_loop_item f v (encode_items xs ++ rest) (sc ∷ scopes) user,
        )
        (then-Completes cb (events v) (events_items xs) (parse_value cb max_depth f)
          (list_loop cb max_depth f) _ (encode_items xs ++ rest) rest sc scopes user first next)

  pub no_entries_at :
      (f : ℕ) (rest : Bytes) (is_dict : Bool) (last : Option Bytes) (scopes : List SaxScope)
      (user : U)
      → Completes rest scopes (deliver cb (events_entries no_entries) user) (
          dict_loop cb max_depth
            (suc f)
            (state (encode_entries no_entries ++ rest) (scope is_dict true last ∷ scopes) user))
  unfolding parse_value encode events
  no_entries_at f rest is_dict last scopes user = notify-Completes cb on_dict_end rest scopes user

  -- The value behind a key, and the entries behind that.
  pub pair_at :
      (f : ℕ) (v : Tree) (es : Entries) (rest : Bytes) (is_dict : Bool) (last : Option Bytes)
      (scopes : List SaxScope) (user : U)
      → Completes
          (encode_entries es ++ rest)
          (scope is_dict false last ∷ scopes)
          (deliver cb (events v) user)
          (parse_value cb max_depth f (
            state
              (encode v ++ (encode_entries es ++ rest))
              (scope is_dict false last ∷ scopes)
              user))
      → ((u : U)
          → Completes rest scopes (deliver cb (events_entries es) u) (
              dict_loop cb max_depth f
                (state (encode_entries es ++ rest) (scope is_dict true last ∷ scopes) u)))
      → Completes rest scopes (deliver cb (events v ++ events_entries es) user) (
          dict_loop cb max_depth (suc f) (
            state
              (encode v ++ (encode_entries es ++ rest))
              (scope is_dict false last ∷ scopes)
              user))
  pair_at f v es rest is_dict last scopes user first next =
      rw (dict_loop_value f v (encode_entries es ++ rest) is_dict last scopes user) (
        then-Completes cb (events v) (events_entries es) (parse_value cb max_depth f)
          (expect_key >> dict_loop cb max_depth f) _ (encode_entries es ++ rest) rest
          (scope is_dict false last) scopes user first (λ u. unfold expect_key in next u))

  pub entry_at :
      (f : ℕ) (k : Bytes) (v : Tree) (es : Entries) (rest : Bytes) (is_dict : Bool)
      (last : Option Bytes) (scopes : List SaxScope) (user : U)
      → IsCanonical (str k)
      → KeyAfter last k
      → ((u : U)
          → Completes rest scopes (deliver cb (events v ++ events_entries es) u) (
              dict_loop cb max_depth f (
                state
                  (encode v ++ (encode_entries es ++ rest))
                  (scope is_dict false (some k) ∷ scopes)
                  u)))
      → Completes rest scopes (deliver cb (events_entries (entry k v es)) user) (
          dict_loop cb max_depth
            (suc f)
            (state (encode_entries (entry k v es) ++ rest) (scope is_dict true last ∷ scopes) user))
  unfolding encode events
  entry_at f k v es rest is_dict last scopes user sized later next =
      rw
        (
          append_assoc (encode_bytes k) (encode v ++ encode_entries es) rest,
          append_assoc (encode v) (encode_entries es) rest,
          dict_loop_key f k (encode v ++ (encode_entries es ++ rest)) is_dict last scopes user,
        )
        (then-Completes cb (on_string k ∷ []) (events v ++ events_entries es) (parse_dict_key cb)
          (dict_loop cb max_depth f) _ (encode v ++ (encode_entries es ++ rest)) rest
          (scope is_dict false (some k)) scopes user
          (key_at k _ is_dict last scopes user sized later) next)
