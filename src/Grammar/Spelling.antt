-- ===== src/Grammar/Spelling.antt =====
-- The encoding of a value is what its events spell out.
use bencode.Prelude.{◌≡◌, ◌∙◌, refl, sym, ap, Bytes, List, [], ◌∷◌, ◌++◌, append_assoc, append-nil}
use bencode.Grammar.{
  Tree, Items, Entries, int, str, list, dict, no_items, item, no_entries, entry, encode,
  encode_items, encode_entries, encode_bytes, Event, events, events_items, events_entries, text,
  spell,
}

pub spell-append : (es fs : List Event) → spell (es ++ fs) ≡ spell es ++ spell fs
spell-append [] fs = refl
spell-append (e ∷ es) fs =
    ap (λ x. text e ++ x) (spell-append es fs) ∙ sym (append_assoc (text e) (spell es) (spell fs))

mutual
  unfolding encode events

  pub spell-events : (v : Tree) → spell (events v) ≡ encode v
  spell-events (int i) = append-nil _
  spell-events (str bs) = append-nil (encode_bytes bs)
  spell-events (list xs) = ap (λ x. b'l' ∷ x) (spell-events_items xs)
  spell-events (dict es) = ap (λ x. b'd' ∷ x) (spell-events_entries es)

  spell-events_items : (xs : Items) → spell (events_items xs) ≡ encode_items xs
  spell-events_items no_items = refl
  spell-events_items (item t xs) =
      spell-append (events t) (events_items xs)
      ∙ ap (λ x. x ++ spell (events_items xs)) (spell-events t)
      ∙ ap (λ x. encode t ++ x) (spell-events_items xs)

  spell-events_entries : (es : Entries) → spell (events_entries es) ≡ encode_entries es
  spell-events_entries no_entries = refl
  spell-events_entries (entry k t es) =
      ap (λ x. encode_bytes k ++ x)
        (spell-append (events t) (events_entries es)
          ∙ ap (λ x. x ++ spell (events_entries es)) (spell-events t)
          ∙ ap (λ x. encode t ++ x) (spell-events_entries es))

-- A value that was read, by its events.
pub spelled :
    (v : Tree) {p : Bytes} (rest : Bytes) → p ≡ encode v ++ rest → p ≡ spell (events v) ++ rest
spelled v rest read = read ∙ ap (λ x. x ++ rest) (sym (spell-events v))
