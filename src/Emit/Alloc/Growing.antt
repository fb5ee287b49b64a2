-- ===== src/Emit/Alloc/Growing.antt =====
-- Appending to the buffer stays within it, keeps what is there, and leaks nothing.
use bencode.Prelude.{
  ℕ, suc, ◌+◌, ◌-◌, ◌≤◌, ◌≡◌, refl, ap, ◌∙◌, Bytes, Bool, true, false, ◌++◌, ltb, ◌==◌,
  if◌then◌else◌, length, arith, tests, ltb→le, ltb→lt, length-append_bytes,
}
use bencode.Prelude.Int.{size_max}
use bencode.Prelude.Word.{sub64}
use bencode.Status.{Error, nomem}
use bencode.Exec.{◌>>=◌, fail, ◌>>◌}
use bencode.Exec.Ensures
use bencode.Exec.Ensures.{Ensures, returns, raises}
use bencode.Memory.{Heap, alloc, book, grants, block}
use bencode.Memory.Frees.{Frees-free_if, Frees-run}
use bencode.Memory.Growth.{double_while-Ensures}
use bencode.Emit.Alloc.{AllocSink, on_memory, set_oom, move, copy, grow, alloc_sink_append}

sub64_exact : (a b : ℕ) → b ≤ a → a ≤ size_max → sub64 a b ≡ a - b
sub64_exact a b h k = omega arith

-- The test of the loop, where it fails.
room_for : (n c len : ℕ) → n ≤ c → c ≤ size_max → ltb (sub64 c n) len ≡ false → n + len ≤ c
room_for n c len h k e = omega (arith, ltb→le (sub64 c n) len e, sub64_exact c n h k)

-- The content fits the buffer, and the buffer is the one block beside the `others`.
pub record IsSink (others : ℕ) (s : AllocSink) : Type 0 where
  pub fits : length s.content ≤ s.capacity
  pub sized : s.capacity ≤ size_max
  pub owns : s.memory.live ≡ block s.capacity + others

-- What an error leaves behind.
abbrev pub Fails : ℕ → Error → AllocSink → Type 0
Fails others e t = (e ≡ nomem) × IsSink others t

module _ (others : ℕ) where
  pub copy-Ensures :
      (bs : Bytes) (s : AllocSink)
      → IsSink others s
      → length s.content + length bs ≤ s.capacity
      → Ensures (λ _ t. IsSink others t × (t.content ≡ s.content ++ bs)) (Fails others) (copy bs s)
  copy-Ensures bs s inv room =
      Ensures.branch (ltb s.capacity (length s.content + length bs))
        (λ over. absurd omega (tests, ltb→lt s.capacity (length s.content + length bs) over))
        (λ _. returns (
          record {
            fits = omega (arith, length-append_bytes s.content bs);
            sized = inv.sized;
            owns = inv.owns;
          },
          refl,
        ))

  one_block : {c : ℕ} → 1 ≤ c → suc others ≡ block c + others
  one_block {c} h = ground arith

  -- The old buffer, if any, is freed.
  move-Ensures :
      (new_cap : ℕ) (s t : AllocSink)
      → IsSink others s
      → t.content ≡ s.content
      → t.capacity ≡ s.capacity
      → t.memory.live ≡ suc s.memory.live
      → s.capacity ≤ new_cap
      → 1 ≤ new_cap
      → new_cap ≤ size_max
      → Ensures
          (λ _ u. IsSink others u × (u.content ≡ s.content) × (u.capacity ≡ new_cap))
          (Fails others)
          (move new_cap t)
  move-Ensures new_cap s t inv same cap live large positive sized =
      Ensures.branch (ltb new_cap (length t.content))
        (λ over. absurd omega (arith, ltb→lt new_cap (length t.content) over, ap length same))
        (λ _.
          let e : t.memory.live ≡ block t.capacity + suc others =
            rw (cap, live, inv.owns) (omega arith) in
          rw (Frees-run (suc others) t.memory (Frees-free_if (ltb 0 t.capacity)) e) (
            returns (
              record {
                fits = rw same (omega (arith, inv.fits));
                sized = sized;
                owns = one_block positive;
              },
              same,
              refl,
            )))

  -- What `grow` leaves when the loop ended at `new_cap`.
  abbrev Roomy : AllocSink → ℕ → AllocSink → Type 0
  Roomy s len t = IsSink others t × (t.content ≡ s.content) × (length s.content + len ≤ t.capacity)

  granted-Ensures :
      (granted : Bool) (new_cap len : ℕ) (s : AllocSink)
      → IsSink others s
      → s.capacity ≤ new_cap
      → 1 ≤ new_cap
      → new_cap ≤ size_max
      → length s.content + len ≤ new_cap
      → Ensures
          (λ _ t. Roomy s len t)
          (Fails others)
          ((if granted then move new_cap else set_oom >> fail nomem)
            (record s { memory = book granted s.memory }))
  granted-Ensures false new_cap len s inv _ _ _ _ =
      raises (refl, record { fits = inv.fits; sized = inv.sized; owns = inv.owns })
  granted-Ensures true new_cap len s inv above positive below room =
      Ensures.mono
        (move-Ensures new_cap s (record s { memory = book true s.memory }) inv refl refl refl above
          positive below)
        (λ _ u (good, same, cap). (good, same, rw cap room)) (λ _ _ f. f)

  grow-Ensures :
      (h : Heap) (len : ℕ) (s : AllocSink)
      → IsSink others s
      → Ensures (λ _ t. Roomy s len t) (Fails others) (grow h len s)
  unfolding grow alloc
  grow-Ensures h len s inv =
      Ensures.bind
        {k = λ new_cap. on_memory (alloc h new_cap) >>= λ granted.
          if granted then move new_cap else set_oom >> fail nomem}
        (Ensures.clean {c = set_oom}
          (double_while-Ensures (λ c. ltb (sub64 c (length s.content)) len) s
            (if s.capacity == 0 then 4096 else s.capacity) (ground arith)
            (ground (arith, inv.sized)))
          (λ e t (n, same).
            rw same (returns (n, record { fits = inv.fits; sized = inv.sized; owns = inv.owns }))))
        (λ new_cap t (done, above, below, same). rw same (
          granted-Ensures (grants h s.memory.requests new_cap) new_cap len s inv
            (ground (arith, above)) (ground (arith, above)) below
            (room_for (length s.content) new_cap len (ground (arith, above, inv.fits)) below done)))
        (λ e t f. f)

  -- A call appends the bytes, or fails for want of memory, and the buffer stays the only block.
  pub alloc_sink_append-Ensures :
      (h : Heap) (bs : Bytes) (s : AllocSink)
      → IsSink others s
      → Ensures
          (λ _ t. IsSink others t × (t.content ≡ s.content ++ bs))
          (Fails others)
          (alloc_sink_append h bs s)
  unfolding alloc_sink_append
  alloc_sink_append-Ensures h bs s inv =
      Ensures.branch s.oom (λ _. raises (refl, inv))
        λ _.
          Ensures.branch (ltb (sub64 s.capacity (length s.content)) (length bs))
            (λ _.
              Ensures.bind {k = λ _. copy bs} (grow-Ensures h (length bs) s inv)
                (λ _ t (good, same, room).
                  Ensures.mono (copy-Ensures bs t good (rw same room))
                    (λ _ u (fine, eq). (fine, eq ∙ ap (λ x. x ++ bs) same)) (λ _ _ f. f))
                (λ _ _ f. f))
            (λ enough.
              copy-Ensures bs s inv
                (room_for (length s.content) s.capacity (length bs) inv.fits inv.sized enough))
