-- ===== src/Example/Shows.antt =====
-- What the example prints, and that it frees what it parsed.
use bencode.Prelude.{
  ℕ, Bool, ◌+◌, ◌≤◌, ◌≡◌, ◌∙◌, ◌⊎◌, inl, inr, refl, ap, subst, Bytes, true, false, Option, some, [],
  ◌++◌, length, arith, append_assoc, codes,
}
use bencode.Status.{err, nomem}
use bencode.Decimal.{decimal, signed}
use bencode.Grammar.{
  Tree, str, list, dict, no_items, item, no_entries, entry, encode, encode_bytes, IsCanonical,
  depth,
}
use bencode.Exec.{Run, returned, pure}
use bencode.Exec.Ensures
use bencode.Exec.Ensures.{Ensures, returns, raises}
use bencode.Memory.{Memory, allocator_check}
use bencode.Memory.Frees.{memory, Frees-run}
use bencode.Value.{
  Value, ValueType, int_value, string_value, list_value, dict_value, no_fields, field, view, blocks,
}
use bencode.Value.Build.{free_pointer}
use bencode.Value.Free.{Frees-value_free}
use bencode.Value.Access.{value_string}
use bencode.Sax.Parse.{bytes, effective_depth}
use bencode.Dom.Callbacks.{default_options, parse}
use bencode.Dom.Entry.{Returns, Releases, parse_complete}
use bencode.Cli.{Platform, World, world, libc, enclose}
use bencode.Example.{
  literal, parsed_line, type_line, cow_line, show_string, show_root, report_failed, decode_main,
  conclude_example,
}

-- {"cow": "moo", "spam": ["a", "b"]}
abbrev pub cows : Tree
cows = dict (
    entry (codes "cow") (str (codes "moo")) (
      entry (codes "spam") (list (item (str (codes "a")) (item (str (codes "b")) no_items)))
        no_entries))

literal_encodes : encode cows ++ [] ≡ literal
unfolding encode encode_bytes decimal signed
literal_encodes = refl

literal_length : length (encode cows) ≡ 26
unfolding encode encode_bytes decimal signed
literal_length = refl

cows-IsCanonical : IsCanonical cows
cows-IsCanonical = omega arith

cows_shallow : depth cows ≤ effective_depth 0
unfolding effective_depth
cows_shallow = omega arith

-- A tree of that value has the string under its first key.
pub record Shape (tree : Value) : Type 0 where
  pub capacity : ℕ
  pub owned : Bool
  pub rest : Value
  pub same :
      tree
      ≡ dict_value
          (field
            (codes "cow")
            (string_value (codes "moo") owned)
            (field (codes "spam") rest no_fields))
          capacity

shape : (tree : Value) → view tree ≡ cows → Shape tree
unfolding view
shape (int_value i) e = cc
shape (string_value bs owned) e = cc
shape (list_value xs capacity) e = cc
shape (dict_value no_fields capacity) e = cc
shape (dict_value (field k v no_fields) capacity) e = cc
shape (dict_value (field k v (field j w (field i u fs))) capacity) e = cc
shape (dict_value (field k (int_value i) (field j w no_fields)) capacity) e = cc
shape (dict_value (field k (list_value xs d) (field j w no_fields)) capacity) e = cc
shape (dict_value (field k (dict_value fs d) (field j w no_fields)) capacity) e = cc
shape (dict_value (field k (string_value bs owned) (field j w no_fields)) capacity) e =
    let first : k ≡ codes "cow" = cc in
    let second : j ≡ codes "spam" = cc in
    let text : bs ≡ codes "moo" = cc in
    record { capacity = capacity; owned = owned; rest = w; same = rw (first, second, text) refl }

-- What the program prints.
abbrev pub transcript : Bytes
transcript = parsed_line 26 ++ (type_line ValueType.dict_type ++ cow_line (codes "moo"))

transcript_text :
    transcript
    ≡ codes "parsed 26 bytes into bencode tree\ntop-level type: 4 (4 = dict)\ncow -> \"moo\"\n"
unfolding decimal
transcript_text = refl

module _ {F S : Type 0} (os : Platform F S) (contents : S → Bytes)
    (prints : (bs : Bytes) (s : S)
      → contents (os.fprintf os.stdout bs s).1 ≡ contents s ++ bs) where
  -- The transcript was printed, or memory ran out; the heap is as it was.
  abbrev pub Ends : World S → ℕ → World S → Type 0
  Ends w rc t =
      (t.memory.live ≡ w.memory.live)
      × (((rc ≡ 0) × (contents t.outside ≡ contents w.outside ++ transcript))
          ⊎ ((rc ≡ 1)
              × ((s : Memory × ℕ) × (parse (libc os) true (bytes literal) default_options w.memory
                    ≡ returned (err nomem) s))))

  abbrev after_lines : S → S
  after_lines s =
      (os.fprintf os.stdout (cow_line (codes "moo"))
        (os.fprintf os.stdout (type_line ValueType.dict_type)
          (os.fprintf os.stdout (parsed_line 26) s).1).1).1

  lines_printed : (s : S) → contents (after_lines s) ≡ contents s ++ transcript
  lines_printed s =
      prints (cow_line (codes "moo")) _
      ∙ ap (λ c. c ++ cow_line (codes "moo")) (prints (type_line ValueType.dict_type) _)
      ∙ ap (λ c. (c ++ type_line ValueType.dict_type) ++ cow_line (codes "moo"))
          (prints (parsed_line 26) s)
      ∙ append_assoc (contents s ++ parsed_line 26) (type_line ValueType.dict_type)
          (cow_line (codes "moo"))
      ∙ append_assoc (contents s) (parsed_line 26)
          (type_line ValueType.dict_type ++ cow_line (codes "moo"))

  release_tree :
      (tree : Value) (n : Memory) (live : ℕ)
      → n.live ≡ blocks tree + live
      → free_pointer (some tree) n ≡ pure tt (memory n.requests live)
  unfolding free_pointer
  release_tree tree n live owns = Frees-run live n (Frees-value_free tree) owns

  abbrev Released : ℕ → S → World S → Type 0
  Released live s t = (t.memory.live ≡ live) × (t.outside ≡ s)

  on_heap-Released :
      (live : ℕ) (n : Memory) (s : S) {r : Run Memory (Unit {0})}
      → r ≡ pure tt (memory n.requests live)
      → Ensures (λ _ t. Released live s t) (λ _ _. ⊥) (enclose s r)
  on_heap-Released live n s e = rw e (returns (refl, refl))

  root_shown :
      (tree : Value) (n m : Memory) (s : S)
      → Shape tree
      → free_pointer (some tree) n ≡ pure tt (memory n.requests m.live)
      → Ensures (Ends (world m s)) (λ _ _. ⊥) (show_root os (some tree) 26 (world n s))
  unfolding show_root show_string value_string
  root_shown tree n m s sh released =
      let freed = on_heap-Released m.live n (after_lines s) (
        subst (λ v. free_pointer (some v) n ≡ pure tt (memory n.requests m.live)) sh.same
          released) in
      rw sh.same (
        Ensures.bind {k = λ _. pure 0} freed
          (λ _ t (live, out). returns (live, inl (refl, ap contents out ∙ lines_printed s)))
          (λ _ _ never. never))

  conclude-Ends :
      (w : World S) {r : Run (Memory × ℕ) (Option Value)}
      → parse (libc os) true (bytes literal) default_options w.memory ≡ r
      → Ensures
          (Returns (libc os) false [] cows w.memory.live)
          (Releases (libc os) false [] w.memory.live)
          r
      → Ensures (Ends w) (λ _ _. ⊥) (conclude_example os w.outside r)
  unfolding report_failed allocator_check
  conclude-Ends w run (returns {s = (n, c)} (p, _)) =
      let read : c ≡ 26 = p.counted ∙ literal_length in
      rw (p.result, read)
        (root_shown p.tree n w.memory w.outside (shape p.tree p.represents)
          (release_tree p.tree n w.memory.live p.owns))
  conclude-Ends w run (raises {e = x} {s = (n, c)} (kept, inl short)) =
      returns (kept, inr (refl, ((n, c), run ∙ ap (λ y. returned (err y) (n, c)) short)))
  conclude-Ends w run (raises {e = x} {s = (n, c)} (kept, inr (inl refused))) = cc
  conclude-Ends w run (raises {e = x} {s = (n, c)} (kept, inr (inr (_, _, more)))) =
      absurd (more refl)

  -- Whatever malloc grants, and for an fprintf that appends its text, the example program ends with
  -- nothing left on the heap. It returns 0 and has printed exactly the three lines for its literal,
  -- or it returns 1, and bencode_parse has returned BENCODE_ERR_NOMEM.
  pub decode_main-Ends : (w : World S) → Ensures (Ends w) (λ _ _. ⊥) (decode_main os w)
  unfolding decode_main
  decode_main-Ends w = conclude-Ends w refl (
      subst
        (λ b.
          Ensures (Returns (libc os) false [] cows w.memory.live)
            (Releases (libc os) false [] w.memory.live)
            (parse (libc os) true (bytes b) default_options w.memory))
        literal_encodes
        (parse_complete (libc os) default_options cows [] w.memory cows-IsCanonical cows_shallow))
