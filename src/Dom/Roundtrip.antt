-- ===== src/Dom/Roundtrip.antt =====
-- The emitter and the DOM parser undo each other.
use mathlib.Core.Option.{some-injective}
use bencode.Prelude.{
  ℕ, ◌++◌, ◌≡◌, false, ap, ◌∙◌, ◌≤◌, sym, subst, Bytes, some, true, [], append-nil,
}
use bencode.Grammar.{Tree, encode, IsCanonical, depth}
use bencode.Exec.Ensures
use bencode.Exec.Ensures.{Ensures}
use bencode.Memory.{Memory, Heap}
use bencode.Sax.Parse.{bytes, effective_depth}
use bencode.Value.{Value, view}
use bencode.Value.Reach.{IsWell-IsCanonical}
use bencode.Value.Reach.Trees.{Reachable, Reachable-IsWell}
use bencode.Emit.Alloc.{emit_to_alloc}
use bencode.Emit.Alloc.Exact.{Refused, emit_to_alloc-Ensures}
use bencode.Dom.Callbacks.{ParseOptions, parse}
use bencode.Status.{ok}
use bencode.Exec.{returned}
use bencode.Dom.Sound.{parse_sound}
use bencode.Dom.Entry.{Returns, Releases, parse_complete}

module _ (h : Heap) (opts : ParseOptions) where
  -- A call of bencode_parse on `out` returns a tree that represents `t`, or releases everything.
  abbrev pub ParsesTo : Tree → Bytes → Memory → Type 0
  ParsesTo t out m =
      Ensures (Returns h opts.allow_trailing [] t m.live) (Releases h opts.allow_trailing [] m.live)
        (parse h true (bytes out) opts m)

  -- What bencode_emit_to_alloc returns for a tree, bencode_parse turns into a tree with the same
  -- value, whatever the options, unless memory runs out or the allocator is not valid.
  pub parse-emit_to_alloc :
      (v : Value) (m : Memory)
      → IsCanonical (view v)
      → depth (view v) ≤ effective_depth opts.max_depth
      → Ensures (ParsesTo (view v)) (Refused h m.live) (emit_to_alloc h true (some v) m)
  parse-emit_to_alloc v m canonical shallow =
      Ensures.mono (emit_to_alloc-Ensures h v m canonical)
        (λ out n (same, _).
          subst (λ b. ParsesTo (view v) b n) (sym same)
            (subst (λ b. ParsesTo (view v) b n) (append-nil (encode (view v)))
              (parse_complete h opts (view v) [] n canonical shallow)))
        (λ _ _ f. f)

  -- Whatever tree is made with the builders, no deeper than the effective limit, what
  -- bencode_emit_to_alloc returns for it is turned by bencode_parse, whatever the other options,
  -- into a tree with the same value, unless memory runs out or the allocator is not valid.
  pub Reachable-ParsesTo :
      (v : Value) (m : Memory)
      → Reachable h v
      → depth (view v) ≤ effective_depth opts.max_depth
      → Ensures (ParsesTo (view v)) (Refused h m.live) (emit_to_alloc h true (some v) m)
  Reachable-ParsesTo v m built shallow =
      parse-emit_to_alloc v m (IsWell-IsCanonical v (Reachable-IsWell h v built)) shallow

module _ (h : Heap) (opts : ParseOptions) (input : Bytes) (m : Memory) where
  -- If bencode_parse accepts a buffer and does not allow trailing bytes, bencode_emit_to_alloc
  -- turns the tree back into exactly that buffer, unless memory runs out or the allocator is not
  -- valid.
  pub emit_to_alloc-parse :
      (v : Value) (s : Memory × ℕ) (n : Memory)
      → opts.allow_trailing ≡ false
      → parse h true (bytes input) opts m ≡ returned (ok (some v)) s
      → Ensures (λ out _. out ≡ input) (Refused h n.live) (emit_to_alloc h true (some v) n)
  emit_to_alloc-parse v s n strict accepted =
      let d = parse_sound h opts input m (some v) s accepted in
      let same : v ≡ d.parsed.tree = some-injective v d.parsed.tree d.parsed.result in
      let shown : view v ≡ d.value = ap view same ∙ d.parsed.represents in
      let whole : encode (view v) ≡ input =
        ap encode shown
        ∙ (sym (append-nil (encode d.value))
            ∙ (ap (λ r. encode d.value ++ r) (sym (d.strict strict)) ∙ sym d.split)) in
      Ensures.mono (emit_to_alloc-Ensures h v n (subst IsCanonical (sym shown) d.canonical))
        (λ out _ (e, _). e ∙ whole) (λ _ _ f. f)
