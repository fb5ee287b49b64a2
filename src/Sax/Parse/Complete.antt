-- ===== src/Sax/Parse/Complete.antt =====
-- `parse_value` reads every canonical encoding whose depth is within the limit.
use bencode.Prelude.{
  ℕ, zero, suc, ◌+◌, ◌*◌, ◌≤◌, ◌<◌, Bytes, Bool, true, false, Option, none, some, List, ◌∷◌, ◌++◌,
  length, arith, lengths,
}
use bencode.Grammar.{
  Tree, Items, Entries, int, str, list, dict, no_items, item, no_entries, entry, encode,
  encode_items, encode_entries, IsCanonical, IsCanonicalItems, IsCanonicalEntries, depth,
  depth_items, depth_entries, events, events_items, events_entries,
}
use bencode.Grammar.Laws.{length-encode_pos, length-encode_bytes_pos}
use bencode.Sax.State.{SaxScope, Callbacks, state, internal_max_depth}
use bencode.Sax.Events.{deliver}
use bencode.Sax.Parse.{parse_value, list_loop, dict_loop}
use bencode.Sax.Parse.Spec.{AfterLast}
use bencode.Sax.Parse.Keys.{scope}
use bencode.Sax.Parse.Steps.{Completes}
use bencode.Sax.Parse.Parts.{int_at, str_at, list_at, dict_at}
use bencode.Sax.Parse.Rounds.{
  AfterLast→KeyAfter, no_items_at, item_at, no_entries_at, pair_at, entry_at,
}

module _ {U : Type 0} (cb : Option (Callbacks U)) (max_depth : ℕ)
    (fits : max_depth ≤ internal_max_depth) where
  mutual
    unfolding encode

    value_complete :
        (v : Tree) (f : ℕ) (rest : Bytes) (scopes : List SaxScope) (user : U)
        → IsCanonical v
        → depth v + length scopes ≤ max_depth
        → 2 * length (encode v) < f
        → Completes rest scopes
            (deliver cb (events v) user)
            (parse_value cb max_depth f (state (encode v ++ rest) scopes user))
    value_complete (int i) zero rest scopes user canonical deep enough = absurd (omega arith)
    value_complete (str bs) zero rest scopes user canonical deep enough = absurd (omega arith)
    value_complete (list xs) zero rest scopes user canonical deep enough = absurd (omega arith)
    value_complete (dict es) zero rest scopes user canonical deep enough = absurd (omega arith)
    value_complete (int i) (suc f) rest scopes user canonical deep enough =
        int_at cb max_depth fits f i rest scopes user canonical
    value_complete (str bs) (suc f) rest scopes user canonical deep enough =
        str_at cb max_depth fits f bs rest scopes user canonical
    value_complete (list xs) (suc f) rest scopes user canonical deep enough =
        list_at cb max_depth fits f xs rest scopes user (omega arith)
          (λ sc u. items_complete xs f rest sc scopes u canonical (omega arith) (omega arith))
    value_complete (dict es) (suc f) rest scopes user canonical deep enough =
        dict_at cb max_depth fits f es rest scopes user (omega arith) (λ u.
          entries_complete es f rest true none scopes u canonical tt (omega arith) (omega arith))

    items_complete :
        (xs : Items) (f : ℕ) (rest : Bytes) (sc : SaxScope) (scopes : List SaxScope) (user : U)
        → IsCanonicalItems xs
        → depth_items xs + suc (length scopes) ≤ max_depth
        → 2 * length (encode_items xs) + 1 < f
        → Completes rest scopes
            (deliver cb (events_items xs) user)
            (list_loop cb max_depth f (state (encode_items xs ++ rest) (sc ∷ scopes) user))
    items_complete no_items zero rest sc scopes user canonical deep enough = absurd (omega arith)
    items_complete (item v xs) zero rest sc scopes user canonical deep enough = absurd (omega arith)
    items_complete no_items (suc f) rest sc scopes user canonical deep enough =
        no_items_at cb max_depth fits f rest sc scopes user
    items_complete (item v xs) (suc f) rest sc scopes user (canonical, canonicals) deep enough =
        item_at cb max_depth fits f v xs rest sc scopes user
          (value_complete v f (encode_items xs ++ rest) (sc ∷ scopes) user canonical (omega arith)
            (omega lengths))
          (λ u.
            items_complete xs f rest sc scopes u canonicals (omega arith)
              (omega (lengths, length-encode_pos v)))

    entries_complete :
        (es : Entries) (f : ℕ) (rest : Bytes) (is_dict : Bool) (last : Option Bytes)
        (scopes : List SaxScope) (user : U)
        → IsCanonicalEntries es
        → AfterLast last es
        → depth_entries es + suc (length scopes) ≤ max_depth
        → 2 * length (encode_entries es) + 1 < f
        → Completes rest scopes (deliver cb (events_entries es) user) (
            dict_loop cb max_depth f
              (state (encode_entries es ++ rest) (scope is_dict true last ∷ scopes) user))
    entries_complete no_entries zero rest is_dict last scopes user canonical after deep enough =
        absurd (omega arith)
    entries_complete no_entries (suc f) rest is_dict last scopes user canonical after deep enough =
        no_entries_at cb max_depth fits f rest is_dict last scopes user
    entries_complete (entry k v es) zero rest is_dict last scopes user canonical after deep enough =
        absurd (omega arith)
    entries_complete (entry k v es) (suc zero) rest is_dict last scopes user canonical after deep
          enough =
        absurd (omega arith)
    entries_complete (entry k v es) (suc (suc f)) rest is_dict last scopes user
          (sized, behind, canonical, canonicals) after deep enough =
        entry_at cb max_depth fits (suc f) k v es rest is_dict last scopes user sized
          (AfterLast→KeyAfter last k v es after)
          (λ u.
            pair_at cb max_depth fits f v es rest is_dict (some k) scopes u
              (value_complete v f (encode_entries es ++ rest)
                (scope is_dict false (some k) ∷ scopes) u canonical (omega arith)
                (omega (lengths, length-encode_bytes_pos k)))
              (λ w.
                entries_complete es f rest is_dict (some k) scopes w canonicals behind (omega arith)
                  (omega (lengths, length-encode_bytes_pos k, length-encode_pos v))))

  -- With enough fuel `parse_value` reads a canonical encoding off the front of any input.
  pub parse_value_complete :
      (v : Tree) (f : ℕ) (rest : Bytes) (scopes : List SaxScope) (user : U)
      → IsCanonical v
      → depth v + length scopes ≤ max_depth
      → 2 * length (encode v) < f
      → Completes rest scopes
          (deliver cb (events v) user)
          (parse_value cb max_depth f (state (encode v ++ rest) scopes user))
  parse_value_complete v = value_complete v
