-- ===== src/Dom/Tests.antt =====
-- bencode_parse at concrete inputs.
use bencode.Prelude.{false, ℕ, ◌≡◌, refl, true, Option, none, some, codes, Bytes, ltb}
use bencode.Prelude.Int.{negsuc}
use bencode.Status.{Result, ok, err, nomem, unexpected_byte, dict_unsorted}
use bencode.Grammar.{Tree, int, str, list, dict, no_items, item, no_entries, entry}
use bencode.Exec.{Run, returned}
use bencode.Memory.{Memory, Heap}
use bencode.Value.{Value, view, blocks}
use bencode.Sax.Scan.{accumulate, digits_loop, parse_unsigned, parse_int}
use bencode.Sax.Parse.{bytes}
use bencode.Prelude.{◌≤◌, ◌≢◌, ◌++◌, [], arith}
use bencode.Decimal.{decimal, signed}
use bencode.Dom.Truncated.{truncated_released}
use bencode.Prelude.Int.{pos}
use bencode.Grammar.{encode, encode_bytes, IsCanonical, depth}
use bencode.Exec.Ensures.{Ensures}
use bencode.Sax.Parse.{effective_depth}
use bencode.Value.Tests.{granting, sevens, sevens-Reachable, sample_tree}
use bencode.Emit.Alloc.{emit_to_alloc}
use bencode.Emit.Alloc.Exact.{Refused}
use bencode.Value.{list_value, string_value, no_elements, element}
use bencode.Dom.Sound.{parse-Ensures, Decoded}
use bencode.Dom.Entry.{Returns, Releases, parse_complete}
use bencode.Dom.Roundtrip.{emit_to_alloc-parse, ParsesTo, Reachable-ParsesTo, parse-emit_to_alloc}
use bencode.Dom.Callbacks.{ParseOptions, parse, default_options}

-- The first `n` requests are granted.
abbrev heap_of : ℕ → Heap
heap_of n = record { malloc = λ requests _. ltb requests n; allocator = none }

abbrev fresh : Memory
fresh = record { requests = 0; live = 0 }

-- The result, the tree's blocks, the live blocks and `*consumed`.
abbrev summary : Run (Memory × ℕ) (Option Value) → Option (Result Tree × ℕ × ℕ × ℕ)
summary (returned (ok (some v)) (m, n)) = some (ok (view v), blocks v, m.live, n)
summary (returned (ok none) (m, n)) = none
summary (returned (err e) (m, n)) = some (err e, 0, m.live, n)
summary _ = none

parsed : ℕ → Bytes → Option (Result Tree × ℕ × ℕ × ℕ)
unfolding parse parse_int parse_unsigned accumulate digits_loop view blocks
parsed n input = summary (parse (heap_of n) true (bytes input) default_options fresh)

whole :
    parsed 100 (codes "d3:cow3:moo4:spaml1:ai-12eee")
    ≡ some (
      ok (
          dict (
            entry (codes "cow") (str (codes "moo")) (
              entry
                (codes "spam")
                (list (item (str (codes "a")) (item (int (negsuc 11)) no_items)))
                no_entries))),
      9,
      9,
      28,
    )
unfolding parsed
whole = refl

failures :
    (parsed 100 (codes "i1ex") ≡ some (err unexpected_byte, 0, 0, 3))
    × (parsed 100 (codes "d1:bli1ee1:ai2ee") ≡ some (err dict_unsorted, 0, 0, 12))
    × (parsed 5 (codes "d1:bli1ee1:cli2eee") ≡ some (err nomem, 0, 0, 8))
unfolding parsed
failures = (refl, refl, refl)

-- {"a": [1], "b": "x"}
abbrev sample : Tree
sample = dict (
    entry (codes "a") (list (item (int (pos 1)) no_items))
      (entry (codes "b") (str (codes "x")) no_entries))

sample-IsCanonical : IsCanonical sample
sample-IsCanonical = omega arith

sample_shallow : depth sample ≤ effective_depth 2
unfolding effective_depth
sample_shallow = omega arith

abbrev lenient : ParseOptions
lenient = record { max_depth = 2; allow_trailing = true }

parse_complete_example :
    Ensures
      (Returns (heap_of 9) true (codes "i1e") sample 0)
      (Releases (heap_of 9) true (codes "i1e") 0)
      (parse (heap_of 9) true (bytes (encode sample ++ codes "i1e")) lenient fresh)
parse_complete_example =
    parse_complete (heap_of 9) lenient sample (codes "i1e") fresh sample-IsCanonical sample_shallow

sample_tree-IsCanonical : IsCanonical (view sample_tree)
unfolding view
sample_tree-IsCanonical = omega arith

sample_tree_shallow : depth (view sample_tree) ≤ effective_depth 2
unfolding view effective_depth
sample_tree_shallow = omega arith

parse-emit_to_alloc_example :
    Ensures
      (ParsesTo (heap_of 90) lenient (view sample_tree))
      (Refused (heap_of 90) 0)
      (emit_to_alloc (heap_of 90) true (some sample_tree) fresh)
parse-emit_to_alloc_example =
    parse-emit_to_alloc (heap_of 90) lenient sample_tree fresh sample_tree-IsCanonical
      sample_tree_shallow

abbrev short_list : Value
short_list = list_value (element (string_value (codes "a") false) no_elements) 4

accepted_list :
    parse (heap_of 100) true (bytes (codes "l1:ae")) default_options fresh
    ≡ returned (ok (some short_list)) (record { requests = 3; live = 3 }, 5)
unfolding parse parse_int parse_unsigned accumulate digits_loop
accepted_list = refl

emit_to_alloc-parse_example :
    Ensures
      (λ out _. out ≡ codes "l1:ae")
      (Refused (heap_of 100) 3)
      (emit_to_alloc (heap_of 100) true (some short_list) (record { requests = 3; live = 3 }))
emit_to_alloc-parse_example =
    emit_to_alloc-parse (heap_of 100) default_options (codes "l1:ae") fresh short_list
      (record { requests = 3; live = 3 }, 5) (record { requests = 3; live = 3 }) refl accepted_list

parse-Ensures_example :
    Ensures
      (Decoded (heap_of 2) default_options (codes "l1:a") fresh)
      (λ _ t. t.0.live ≡ 0)
      (parse (heap_of 2) true (bytes (codes "l1:a")) default_options fresh)
parse-Ensures_example = parse-Ensures (heap_of 2) default_options (codes "l1:a") fresh

sevens_shallow : depth (view sevens) ≤ effective_depth 2
unfolding view effective_depth
sevens_shallow = omega arith

Reachable-ParsesTo_example :
    Ensures
      (ParsesTo granting lenient (view sevens))
      (Refused granting 3)
      (emit_to_alloc granting true (some sevens) (record { requests = 3; live = 3 }))
Reachable-ParsesTo_example =
    Reachable-ParsesTo granting lenient sevens (record { requests = 3; live = 3 }) sevens-Reachable
      sevens_shallow

-- {"a": [1], "b": "x"} less its last byte.
cut_text : encode sample ≡ codes "d1:ali1ee1:b1:x" ++ codes "e"
unfolding encode encode_bytes decimal signed
cut_text = refl

more : codes "e" ≢ []
more e = cc

truncated_released_example :
    Ensures
      (λ _ _. ⊥)
      (λ _ t. t.0.live ≡ 0)
      (parse (heap_of 9) true (bytes (codes "d1:ali1ee1:b1:x")) lenient fresh)
truncated_released_example =
    truncated_released (heap_of 9) lenient fresh sample (codes "d1:ali1ee1:b1:x") (codes "e")
      sample-IsCanonical sample_shallow cut_text more
