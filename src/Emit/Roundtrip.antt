-- ===== src/Emit/Roundtrip.antt =====
-- What the emitter writes is read back by the parser.
use bencode.Prelude.{ℕ, ◌≤◌, sym, subst, Bytes, Option, true, some, [], append-nil, length}
use bencode.Grammar.{encode, IsCanonical, depth, events}
use bencode.Exec.Ensures
use bencode.Exec.Ensures.{Ensures}
use bencode.Memory.{Memory, Heap}
use bencode.Sax.State.{Callbacks}
use bencode.Sax.Events.{deliver}
use bencode.Sax.Parse.{bytes, parse_sax, effective_depth}
use bencode.Sax.Parse.Entry.{Reports, parse_sax_complete}
use bencode.Value.{Value, view}
use bencode.Emit.Alloc.{emit_to_alloc}
use bencode.Emit.Alloc.Exact.{Refused, emit_to_alloc-Ensures}

module _ {U : Type 0} (cb : Option (Callbacks U)) (user : U) (max_depth : ℕ) where
  -- All of `out` is read, and the callbacks are called for the events of the tree's value.
  abbrev pub ReadBack : Value → Bytes → Type 0
  ReadBack v out =
      Reports (length out) (deliver cb (events (view v)) user)
        (parse_sax (bytes out) cb user max_depth)

  -- The parser, with callbacks that do not abort, reads all of what bencode_emit_to_alloc returns,
  -- as the value of the tree; a callback that aborts is reported.
  pub emit_to_alloc-ReadBack :
      (h : Heap) (v : Value) (m : Memory)
      → IsCanonical (view v)
      → depth (view v) ≤ effective_depth max_depth
      → Ensures (λ out _. ReadBack v out) (Refused h m.live) (emit_to_alloc h true (some v) m)
  emit_to_alloc-ReadBack h v m canonical shallow =
      Ensures.mono (emit_to_alloc-Ensures h v m canonical)
        (λ out _ (same, _). subst (ReadBack v) (sym same) (
          subst
            (λ t.
              Reports (length (encode (view v))) (deliver cb (events (view v)) user)
                (parse_sax (bytes t) cb user max_depth))
            (append-nil (encode (view v)))
            (parse_sax_complete cb user max_depth (view v) [] canonical shallow)))
        (λ _ _ f. f)
