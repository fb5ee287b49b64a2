-- ===== src/Cli/Compares.antt =====
-- bencode roundtrip: what is written again is compared with what was read.
use bencode.Prelude.{
  ℕ, suc, ◌+◌, ◌≤◌, ◌≡◌, ◌∙◌, sym, ap, refl, subst, Bytes, true, Option, some, ◌++◌, arith, codes,
  length, ◌==◌, ◌||◌, ◌&&◌, inl, inr, [], ◌∷◌, Bool-cases,
}
use bencode.Prelude.Text.{same_text-eq}
use bencode.Status.{Error, Result, ok, err, status_string}
use bencode.Grammar.{encode, IsCanonical}
use bencode.Exec.{pure, ◌>>◌}
use bencode.Exec.Ensures
use bencode.Exec.Ensures.{Ensures, returns, raises}
use bencode.Memory.{free}
use bencode.Memory.Frees.{memory, Frees-run, Frees-free}
use bencode.Value.{Value, view, blocks}
use bencode.Emit.Alloc.Exact.{Emitted, Refused, emit_to_alloc-Ensures}
use bencode.Cli.{Platform, World, libc, on_heap, call, open_input}
use bencode.Cli.Attempts.{Either, attempt-Ensures, on_heap-Ensures}
use bencode.Cli.Reads.{Streams}
use bencode.Cli.Reads.Whole.{input_of}
use bencode.Cli.Print.Prints.{Outputs, Prints-call}
use bencode.Cli.Commands.{
  equal_bytes, loaded, free_loaded, roundtrip_loaded, compare_emitted, cmd_roundtrip,
}
use bencode.Cli.Loads.{Holds, status_to_exit-range}
use bencode.Cli.Exits.{report-Ensures, Serves, free_loaded-frees, command-Ensures}
use bencode.Cli.Serves.{ok_line}

same_test :
    (emitted buf : Bytes)
    → (length emitted == length buf && (length buf == 0 || equal_bytes emitted buf)) ≡ true
    → buf ≡ emitted
same_test [] [] test = refl
same_test [] (c ∷ cs) test = absurd (ground (arith, test))
same_test (c ∷ cs) [] test = absurd (ground (arith, test))
same_test (x ∷ xs) (c ∷ cs) test =
    let same : equal_bytes (x ∷ xs) (c ∷ cs) ≡ true = ground (arith, test) in
    sym (same_text-eq (x ∷ xs) (c ∷ cs) same)

module _ {F S : Type 0} (os : Platform F S) (prog : Bytes) (contents : S → Bytes)
    (outputs : Outputs os os.stdout contents) (live : ℕ) (tree : Value) (buf : Bytes) where
  -- All is released, and 0 says that the buffer is the encoding.
  abbrev pub Compared : Bytes → ℕ → World S → Type 0
  Compared output rc t =
      (t.memory.live ≡ live)
      × (rc ≤ 2)
      × (rc ≡ 0 → (buf ≡ encode (view tree)) × (contents t.outside ≡ output ++ codes "ok\n"))

  -- The tree and the two buffers are released behind the comparison.
  release-Ensures :
      (output : Bytes) (rc : ℕ) (u : World S)
      → u.memory.live ≡ suc (suc (blocks tree + live))
      → rc ≤ 2
      → (rc ≡ 0 → (buf ≡ encode (view tree)) × (contents u.outside ≡ output ++ codes "ok\n"))
      → Ensures
          (Compared output)
          (λ _ _. ⊥)
          ((on_heap free >> (free_loaded os prog (some tree) >> pure rc)) u)
  release-Ensures output rc u owns small done =
      rw
        (
          Frees-run (suc (blocks tree + live)) u.memory Frees-free (omega (arith, owns)),
          free_loaded-frees os prog live tree (memory u.memory.requests (suc (blocks tree + live)))
              u.outside refl,
        )
        (returns (refl, small, done))

  bytes-Ensures :
      (emitted : Bytes) (w : World S)
      → emitted ≡ encode (view tree)
      → w.memory.live ≡ suc (suc (blocks tree + live))
      → Ensures
          (Compared (contents w.outside))
          (λ _ _. ⊥)
          (compare_emitted os prog buf (some tree) (ok emitted) w)
  bytes-Ensures emitted w encoded owns =
      elim (Bool-cases
        (length emitted == length buf && (length buf == 0 || equal_bytes emitted buf))) [
          | inl same ↦ rw same (
              Ensures.bind {k = λ rc. on_heap free >> (free_loaded os prog (some tree) >> pure rc)}
                (report-Ensures contents (codes "ok\n") (call (os.puts (codes "ok"))) w.memory
                  w.outside (Prints-call contents (outputs.puts (codes "ok"))))
                (λ rc u (kept, small, wrote).
                  release-Ensures (contents w.outside) rc u (ap (λ n. n.live) kept ∙ owns) small
                    (λ zero. (same_test emitted buf same ∙ encoded, wrote zero)))
                (λ _ _ never. never))
          | inr other ↦ rw other (
              release-Ensures (contents w.outside) 1 _ owns (omega arith)
                (λ zero. absurd (omega (arith, zero))))
        ]

  refused-Ensures :
      (e : Error) (output : Bytes) (w : World S)
      → w.memory.live ≡ suc (blocks tree + live)
      → Ensures (Compared output) (λ _ _. ⊥) (compare_emitted os prog buf (some tree) (err e) w)
  refused-Ensures e output w owns =
      let (low, high) = status_to_exit-range e in
      rw
        (free_loaded-frees os prog live tree w.memory
          (os.fprintf os.stderr
            (prog
              ++ (codes ": "
                  ++ (codes "emit failed: " ++ (codes (status_string (err e)) ++ codes "\n"))))
            w.outside).1
          owns)
        (returns (refl, high, λ zero. absurd (omega (arith, low, zero))))

  compare-Ensures :
      (t : World S) (r : Result Bytes) (w : World S)
      → t.memory.live ≡ suc (blocks tree + live)
      → Either
          (λ out u. Emitted tree t.memory.live out u.memory × (u.outside ≡ t.outside))
          (λ e u. Refused (libc os) t.memory.live e u.memory × (u.outside ≡ t.outside))
          r
          w
      → Ensures
          (Compared (contents t.outside))
          (λ _ _. ⊥)
          (compare_emitted os prog buf (some tree) r w)
  compare-Ensures t (ok emitted) w owns ((encoded, more), kept) =
      subst
        (λ s.
          Ensures (Compared (contents s)) (λ _ _. ⊥)
            (compare_emitted os prog buf (some tree) (ok emitted) w))
        kept (bytes-Ensures emitted w encoded (omega (arith, more, owns)))
  compare-Ensures t (err e) w owns ((less, _), kept) =
      refused-Ensures e (contents t.outside) w (omega (arith, less, owns))

  -- Behind load, bencode roundtrip compares: for any buffer and any tree that the format can
  -- represent, whether or not the tree was parsed from the buffer, it returns 0, 1 or 2 and
  -- releases the tree and both buffers. It returns 0 only if the buffer is exactly the canonical
  -- encoding of the tree's value, and the output has grown by ok and a newline.
  pub roundtrip_loaded-Compares :
      (t : World S)
      → IsCanonical (view tree)
      → t.memory.live ≡ suc (blocks tree + live)
      → Ensures
          (Compared (contents t.outside))
          (λ _ _. ⊥)
          (roundtrip_loaded os prog (loaded buf (some tree)) t)
  roundtrip_loaded-Compares t canonical owns =
      Ensures.bind {k = compare_emitted os prog buf (some tree)}
        (attempt-Ensures
          (on_heap-Ensures t.outside (emit_to_alloc-Ensures (libc os) tree t.memory canonical)))
        (λ r w known. compare-Ensures t r w owns known) (λ _ _ never. never)

module _ {F S : Type 0} (os : Platform F S) (left : F → S → Bytes) (contents : S → Bytes)
    (streams : Streams os left contents) (outputs : Outputs os os.stdout contents)
    (prog : Bytes) where
  roundtrip-Serves :
      (path : Option Bytes) (w : World S) (buf : Bytes) (value : Option Value) (t : World S)
      → Holds contents w.memory.live
          (input_of left (open_input os path w.outside))
          (contents w.outside)
          buf
          value
          t
      → Ensures
          (Serves os left contents streams prog ok_line path w)
          (λ _ _. ⊥)
          (roundtrip_loaded os prog (loaded buf value) t)
  roundtrip-Serves path w buf value t held = rw held.result (
      Ensures.mono
        (roundtrip_loaded-Compares os prog contents outputs w.memory.live held.tree buf t
          held.canonical held.owns)
        (λ rc u (kept, small, done). (
          kept,
          small,
          λ zero.
              let (same, wrote) = done zero in
              record {
                value = view held.tree;
                canonical = held.canonical;
                shallow = held.shallow;
                encoded = held.opened ∙ ap some same;
                wrote = wrote ∙ ap (λ c. c ++ codes "ok\n") held.quiet;
              },
        ))
        (λ _ _ never. never))

  -- `bencode roundtrip`, likewise: it returns 0 only if the whole input is the canonical encoding of
  -- a value within the default depth, and the output has grown by "ok\n".
  pub cmd_roundtrip-Serves :
      (path : Option Bytes) (w : World S)
      → Ensures
          (Serves os left contents streams prog ok_line path w)
          (λ _ _. ⊥)
          (cmd_roundtrip os prog path w)
  unfolding cmd_roundtrip
  cmd_roundtrip-Serves path w =
      command-Ensures os left contents streams prog ok_line path w (roundtrip_loaded os prog)
        (λ rc t. refl) (roundtrip-Serves path w)
