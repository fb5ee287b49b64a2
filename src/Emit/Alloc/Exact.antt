-- ===== src/Emit/Alloc/Exact.antt =====
-- bencode_emit_to_alloc returns the canonical encoding in one block, or an error and no block.
use bencode.Prelude.{
  ℕ, suc, ◌+◌, ◌≡◌, ◌⊎◌, refl, sym, ap, ◌∙◌, Bytes, true, some, List, [], ◌∷◌, ◌++◌, append_assoc,
  append-nil, length, ltb, ◌≤◌, arith, inl, inr,
}
use bencode.Status.{Error, Status, ok, err, nomem}
use bencode.Grammar.{encode, IsCanonical}
use bencode.Grammar.Laws.{length-encode_pos}
use bencode.Exec.{Run, returned, and_then}
use bencode.Exec.Ensures
use bencode.Exec.Ensures.{Ensures, returns, raises}
use bencode.Memory.{Memory, Heap, allocator_check, block, free_if, free}
use bencode.Memory.Frees.{Frees-free_if, Frees-run}
use bencode.Value.{Value, view}
use bencode.Emit.{emit_value}
use bencode.Emit.Chunks.{chunks, concat, concat-chunks}
use bencode.Emit.Sends.{send, emit_value-Sends}
use bencode.Emit.Alloc.{AllocSink, alloc_sink_append, empty_sink, finish, emit_to_alloc}
use bencode.Emit.Alloc.Growing.{IsSink, Fails, alloc_sink_append-Ensures}

module _ (h : Heap) (others : ℕ) where
  send-Ensures :
      (cs : List Bytes) (s : AllocSink)
      → IsSink others s
      → Ensures
          (λ _ t. IsSink others t × (t.content ≡ s.content ++ concat cs))
          (Fails others)
          (send (alloc_sink_append h) cs s)
  send-Ensures [] s inv = returns (inv, sym (append-nil s.content))
  send-Ensures (c ∷ cs) s inv =
      Ensures.bind {k = λ _. send (alloc_sink_append h) cs}
        (alloc_sink_append-Ensures others h c s inv)
        (λ _ t (good, same).
          Ensures.mono (send-Ensures cs t good)
            (λ _ u (fine, eq).
              (fine, eq ∙ ap (λ x. x ++ concat cs) same ∙ append_assoc s.content c (concat cs)))
            (λ _ _ f. f))
        (λ _ _ f. f)

-- The result of a call for a tree `v`, made with `live` blocks.
abbrev pub Emitted : Value → ℕ → Bytes → Memory → Type 0
Emitted v live out m = (out ≡ encode (view v)) × (m.live ≡ suc live)

abbrev pub Refused : Heap → ℕ → Error → Memory → Type 0
Refused h live e m = (m.live ≡ live) × ((e ≡ nomem) ⊎ (allocator_check h ≡ err e))

module _ (h : Heap) (v : Value) (live : ℕ) where
  one_block : (c : ℕ) → 1 ≤ c → block c + live ≡ suc live
  one_block c k = ground arith

  finish-Ensures :
      {r : Run AllocSink (Unit {0})}
      → Ensures (λ _ t. IsSink live t × (t.content ≡ concat (chunks v))) (Fails live) r
      → Ensures (Emitted v live) (Refused h live) (finish r)
  unfolding free_if free
  finish-Ensures (returns {s = t} (inv, same)) =
      let text : t.content ≡ encode (view v) = same ∙ concat-chunks v in
      returns (
        text,
        inv.owns
            ∙ one_block t.capacity
                (omega (arith, inv.fits, ap length text, length-encode_pos (view v))),
      )
  finish-Ensures (raises {e} {s = t} (short, inv)) =
      rw (Frees-run live t.memory (Frees-free_if (ltb 0 t.capacity)) inv.owns)
        (raises (refl, inl short))

module _ (h : Heap) where
  checked-Ensures :
      (st : Status) (v : Value) (m : Memory)
      → allocator_check h ≡ st
      → IsCanonical (view v)
      → Ensures (Emitted v m.live) (Refused h m.live) (
          and_then {A = Unit {0}}
            (returned st m)
            λ _ n. finish (emit_value (alloc_sink_append h) v (empty_sink n)))
  checked-Ensures (err e) v m check canonical = raises (refl, inr check)
  checked-Ensures (ok _) v m check canonical =
      let w = emit_value-Sends (alloc_sink_append h) v canonical in
      rw w.sends (
        finish-Ensures h v m.live (
          send-Ensures h m.live (chunks v) (empty_sink m)
            (record { fits = omega arith; sized = omega arith; owns = omega arith })))

  -- For a tree whose value the format can represent, a call either returns its canonical encoding
  -- in one new block, or fails with no block left: for want of memory, or because the
  -- allocator is not valid. It never writes outside its buffer.
  pub emit_to_alloc-Ensures :
      (v : Value) (m : Memory)
      → IsCanonical (view v)
      → Ensures (Emitted v m.live) (Refused h m.live) (emit_to_alloc h true (some v) m)
  unfolding emit_to_alloc
  emit_to_alloc-Ensures v m canonical = checked-Ensures (allocator_check h) v m refl canonical
