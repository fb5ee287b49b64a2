-- ===== src/Sax/Tests.antt =====
-- Runs of the parser, and its theorems at concrete inputs.
use bencode.Prelude.{
  ℕ, ◌≡◌, ◌≢◌, ◌≤◌, refl, Bytes, none, some, List, [], ◌∷◌, ◌++◌, codes, arith, length,
}
use bencode.Prelude.Int.{negsuc}
use bencode.Status.{
  Status, ok, err, dict_duplicate, dict_unsorted, dict_missing_value, dict_bad_key, integer_format,
  integer_overflow, nesting_too_deep, string_length, truncated, unexpected_byte, invalid_arg,
}
use bencode.Decimal.{decimal, signed}
use bencode.Grammar.{
  Tree, int, str, list, dict, no_items, item, no_entries, entry, encode, encode_bytes, IsCanonical,
  depth, events, Event, on_int, on_string, on_list_begin, on_list_end, on_dict_begin, on_dict_end,
}
use bencode.Exec.{Run, returned}
use bencode.Exec.Ensures.{Ensures}
use bencode.Sax.State.{Callbacks}
use bencode.Sax.Events.{deliver}
use bencode.Sax.State.{state}
use bencode.Sax.Scan.Sound.{Scanned, digits_loop-Scanned}
use bencode.Sax.Scan.Ints.{ReadsInt, BreaksInt, parse_int-Ensures}
use bencode.Sax.Scan.{accumulate, digits_loop, parse_unsigned, parse_int}
use bencode.Sax.Parse.{Buffer, null, bytes, parse_sax, effective_depth}
use bencode.Sax.Parse.Entry.{Accepted, Interrupted, Reports, parse_sax_sound, parse_sax_complete}
use bencode.Sax.Parse.Prefixes.{Obliges, Decided, parse_sax-Decides, truncated_rejected}

-- Callbacks that append what they are called for to a list.
abbrev log : Event → List Event → Status × List Event
log e es = (ok tt, es ++ e ∷ [])

abbrev recorder : Callbacks (List Event)
recorder = record {
  int_callback = some (λ i. log (on_int i));
  string_callback = some (λ bs. log (on_string bs));
  list_begin_callback = some (log on_list_begin);
  list_end_callback = some (log on_list_end);
  dict_begin_callback = some (log on_dict_begin);
  dict_end_callback = some (log on_dict_end);
}

-- {"cow": "moo", "spam": ["a", -12]}
abbrev sample : Tree
sample = dict (
    entry (codes "cow") (str (codes "moo")) (
      entry (codes "spam") (list (item (str (codes "a")) (item (int (negsuc 11)) no_items)))
        no_entries))

sample_text : encode sample ≡ codes "d3:cow3:moo4:spaml1:ai-12eee"
unfolding encode encode_bytes decimal signed
sample_text = refl

sample-IsCanonical : IsCanonical sample
sample-IsCanonical = omega arith

sample_shallow : depth sample ≤ effective_depth 2
unfolding effective_depth
sample_shallow = omega arith

-- What the parser makes of a text, with no callbacks and the default limit.
parsed : Buffer → ℕ → Run (Unit {0} × ℕ) (Unit {0})
unfolding parse_sax parse_int parse_unsigned accumulate digits_loop
parsed b max_depth = parse_sax b none tt max_depth

accepted : parsed (bytes (codes "d3:cow3:moo4:spaml1:ai-12eeei5e")) 0 ≡ returned (ok tt) (tt, 28)
unfolding parsed
accepted = refl

limits :
    (parsed (bytes (codes "i-9223372036854775808e")) 0 ≡ returned (ok tt) (tt, 22))
    × (parsed (bytes (codes "i9223372036854775808e")) 0 ≡ returned (err integer_overflow) (tt, 19))
    × (parsed (bytes (codes "lllleeee")) 3 ≡ returned (err nesting_too_deep) (tt, 4))
unfolding parsed
limits = (refl, refl, refl)

refusals :
    (parsed (bytes (codes "i03e")) 0 ≡ returned (err integer_format) (tt, 2))
    × (parsed (bytes (codes "i-0e")) 0 ≡ returned (err integer_format) (tt, 3))
    × (parsed (bytes (codes "d1:ae")) 0 ≡ returned (err dict_missing_value) (tt, 4))
    × (parsed (bytes (codes "d1:ai1e1:ai2ee")) 0 ≡ returned (err dict_duplicate) (tt, 10))
    × (parsed (bytes (codes "d1:bi1e1:ai2ee")) 0 ≡ returned (err dict_unsorted) (tt, 10))
    × (parsed (bytes (codes "di1ei2ee")) 0 ≡ returned (err dict_bad_key) (tt, 1))
    × (parsed (bytes (codes "9:abc")) 0 ≡ returned (err string_length) (tt, 2))
    × (parsed (bytes (codes "li1e")) 0 ≡ returned (err truncated) (tt, 4))
    × (parsed (bytes (codes "x")) 0 ≡ returned (err unexpected_byte) (tt, 0))
    × (parsed (null 3) 0 ≡ returned (err invalid_arg) (tt, 0))
unfolding parsed
refusals = (refl, refl, refl, refl, refl, refl, refl, refl, refl, refl)

parse_sax_sound_example :
    Ensures
      (λ _ t.
        (input : Bytes) × (bytes (codes "li7eex") ≡ bytes input)
        × Accepted (some recorder) [] 0 input t.0 t.1)
      (λ _ t. Interrupted (some recorder) [] 0 (codes "li7eex") t.0)
      (parse_sax (bytes (codes "li7eex")) (some recorder) [] 0)
parse_sax_sound_example = parse_sax_sound (some recorder) [] 0 (bytes (codes "li7eex"))

parse_sax_complete_example :
    Reports
      (length (encode sample))
      (deliver (some recorder) (events sample) [])
      (parse_sax (bytes (encode sample ++ codes "x")) (some recorder) [] 2)
parse_sax_complete_example =
    parse_sax_complete (some recorder) [] 2 sample (codes "x") sample-IsCanonical sample_shallow

digits_loop-Scanned_example : Scanned 255 0 (codes "256x") (digits_loop 255 0 (codes "256x"))
digits_loop-Scanned_example = digits_loop-Scanned 255 0 (codes "256x") (omega arith) (omega arith)

parse_int-Ensures_example :
    Ensures
      (λ _ t. ReadsInt (some recorder) (codes "-12e4") [] [] t)
      (λ _ t. BreaksInt (some recorder) (codes "-12e4") [] [] t)
      (parse_int (some recorder) (state (codes "i-12e4") [] []))
parse_int-Ensures_example = parse_int-Ensures (some recorder) (codes "-12e4") [] []

recorder-Obliges : Obliges (some recorder)
recorder-Obliges (on_int i) u = (_, refl)
recorder-Obliges (on_string bs) u = (_, refl)
recorder-Obliges on_list_begin u = (_, refl)
recorder-Obliges on_list_end u = (_, refl)
recorder-Obliges on_dict_begin u = (_, refl)
recorder-Obliges on_dict_end u = (_, refl)

parse_sax-Decides_example :
    Decided
      (some recorder)
      []
      2
      (codes "i7e:")
      (parse_sax (bytes (codes "i7e:")) (some recorder) [] 2)
parse_sax-Decides_example = parse_sax-Decides (some recorder) [] 2 (codes "i7e:") recorder-Obliges

more : codes "e" ≢ []
more e = cc

truncated_rejected_example :
    Ensures
      (λ _ _. ⊥)
      (λ _ t. Interrupted (some recorder) [] 2 (codes "d3:cow3:moo4:spaml1:ai-12ee") t.0)
      (parse_sax (bytes (codes "d3:cow3:moo4:spaml1:ai-12ee")) (some recorder) [] 2)
truncated_rejected_example =
    truncated_rejected (some recorder) [] 2 sample (codes "d3:cow3:moo4:spaml1:ai-12ee") (codes "e")
      sample-IsCanonical sample_shallow sample_text more
