-- ===== src/Emit/Tests.antt =====
-- The emitter at concrete inputs.
use bencode.Prelude.{
  ◌≤◌, ◌≡◌, refl, Bytes, true, none, some, [], ◌++◌, codes, arith, All, ltb, length, if◌then◌else◌,
}
use bencode.Status.{ok, io}
use bencode.Decimal.{decimal, signed}
use bencode.Grammar.{IsCanonical, depth, encode}
use bencode.Exec.{returned, pure, fail}
use bencode.Exec.Ensures.{Ensures}
use bencode.Memory.{Memory, Heap}
use bencode.Value.{view}
use bencode.Value.Tests.{sample_tree}
use bencode.Sax.Parse.{effective_depth}
use bencode.Prelude.{take, take-append, append-nil, ap, sym, ◌∙◌, ℕ}
use bencode.Emit.File.{emit_to_file-Ensures}
use bencode.Emit.File.Completes.{emit_to_file-Completes}
use bencode.Emit.{Stdio, emit_to_file, Sink, emit}
use bencode.Emit.Chunks.{chunks, concat, IsFilled}
use bencode.Emit.Sends.{send, emit_exact}
use bencode.Emit.Alloc.{emit_to_alloc}
use bencode.Emit.Alloc.Exact.{Emitted, Refused, emit_to_alloc-Ensures}
use bencode.Emit.Roundtrip.{ReadBack, emit_to_alloc-ReadBack}

-- A sink that refuses what does not fit 30 bytes.
abbrev short_sink : Sink Bytes
short_sink bs out = if ltb 30 (length (out ++ bs)) then fail io out else pure tt (out ++ bs)

-- The platform's `malloc`, which grants everything.
abbrev heap : Heap
heap = record { malloc = λ _ _. true; allocator = none }

abbrev memory : Memory
memory = record { requests = 0; live = 6 }

sample_tree-IsCanonical : IsCanonical (view sample_tree)
unfolding view
sample_tree-IsCanonical = omega arith

sample_tree_shallow : depth (view sample_tree) ≤ effective_depth 2
unfolding view effective_depth
sample_tree_shallow = omega arith

sample_output :
    emit (some sample_tree) (some short_sink) [] ≡ returned (ok tt) (codes "d0:3:moo4:spamli-12eee")
unfolding emit decimal signed
sample_output = refl

emit_exact_example :
    (emit (some sample_tree) (some short_sink) (codes "0123456789")
      ≡ send short_sink (chunks sample_tree) (codes "0123456789"))
    × All IsFilled (chunks sample_tree)
    × (concat (chunks sample_tree) ≡ encode (view sample_tree))
emit_exact_example = emit_exact short_sink sample_tree (codes "0123456789") sample_tree-IsCanonical

emit_to_alloc-Ensures_example :
    Ensures
      (Emitted sample_tree 6)
      (Refused heap 6)
      (emit_to_alloc heap true (some sample_tree) memory)
emit_to_alloc-Ensures_example =
    emit_to_alloc-Ensures heap sample_tree memory sample_tree-IsCanonical

emit_to_alloc-ReadBack_example :
    Ensures
      (λ out _. ReadBack {U = Unit {0}} none tt 2 sample_tree out)
      (Refused heap 6)
      (emit_to_alloc heap true (some sample_tree) memory)
emit_to_alloc-ReadBack_example =
    emit_to_alloc-ReadBack none tt 2 heap sample_tree memory sample_tree-IsCanonical
      sample_tree_shallow

-- A file that takes at most 30 bytes at a time.
abbrev slow_file : Stdio Bytes
slow_file = record {
  fwrite = λ bs s. let n = if ltb 30 (length bs) then 30 else length bs in (n, s ++ take n bs);
  fflush = λ s. (true, s);
}

take-length : (bs : Bytes) → take (length bs) bs ≡ bs
take-length bs = ap (take (length bs)) (sym (append-nil bs)) ∙ take-append bs []

-- A count that is the whole length means that all was taken.
took_all : (n : ℕ) (bs s : Bytes) → n ≡ length bs → s ++ take n bs ≡ s ++ bs
took_all n bs s full = ap (λ k. s ++ take k bs) full ∙ ap (λ x. s ++ x) (take-length bs)

emit_to_file-Ensures_example :
    Ensures
      (λ _ t. t ≡ codes "x" ++ encode (view sample_tree))
      (λ e _. e ≡ io)
      (emit_to_file slow_file true (some sample_tree) (codes "x"))
emit_to_file-Ensures_example =
    emit_to_file-Ensures slow_file (λ s. s) (λ bs s. took_all _ bs s) (λ s done. refl) sample_tree
      (codes "x") sample_tree-IsCanonical

-- A file that takes everything.
abbrev whole_file : Stdio Bytes
whole_file = record {
  fwrite = λ bs s. (length bs, s ++ take (length bs) bs);
  fflush = λ s. (true, s);
}

emit_to_file-Completes_example :
    (t : Bytes) × (emit_to_file whole_file true (some sample_tree) (codes "x") ≡ returned (ok tt) t)
    × (t ≡ codes "x" ++ encode (view sample_tree))
emit_to_file-Completes_example =
    emit_to_file-Completes whole_file (λ bs s. refl) (λ s. refl) (λ s. s) (λ bs s. took_all _ bs s)
      (λ s done. refl) sample_tree (codes "x") sample_tree-IsCanonical
