-- ===== src/Emit/Alloc.antt =====
-- src/emit.c: the sink that collects the output in an allocated buffer, and bencode_emit_to_alloc.
pub mod Growing
pub mod Exact
use bencode.Prelude.{
  ℕ, ◌+◌, Bytes, Bool, true, false, not, Option, none, some, [], ◌++◌, ltb, ◌==◌, if◌then◌else◌,
  length,
}
use bencode.Prelude.Word.{sub64}
use bencode.Status.{Status, ok, err, invalid_arg, nomem}
use bencode.Exec.{
  Run, returned, out_of_bounds, out_of_fuel, Exec, pure, fail, lift, fault, or_else, ◌>>=◌, ◌>>◌,
}
use bencode.Memory.{Memory, Heap, allocator_check, alloc, free_if, double_while, growth_fuel}
use bencode.Value.{Value}
use bencode.Emit.{Sink, emit_value}

-- `alloc_sink`: the first `len` bytes of the buffer, and its capacity. `bytes` is NULL exactly
-- while the capacity is 0. The memory is carried along.
pub record AllocSink : Type 0 where
  pub content : Bytes
  pub capacity : ℕ
  pub oom : Bool
  pub memory : Memory

abbrev pub rewrap : {A : Type 0} → AllocSink → Run Memory A → Run AllocSink A
rewrap s (returned r m) = returned r (record s { memory = m })
rewrap s out_of_bounds = out_of_bounds
rewrap s out_of_fuel = out_of_fuel

abbrev pub on_memory : {A : Type 0} → Exec Memory A → Exec AllocSink A
on_memory action s = rewrap s (action s.memory)

-- `s->oom = 1`
abbrev pub set_oom : Exec AllocSink (Unit {0})
set_oom s = pure tt (record s { oom = true })

-- `memcpy(fresh, s->bytes, s->len)` into the new buffer, which takes the place of the old one.
abbrev pub move : ℕ → Exec AllocSink (Unit {0})
move new_cap s =
    if ltb new_cap (length s.content)
    then fault s
    else (on_memory (free_if (ltb 0 s.capacity)) >> λ t. pure tt (record t { capacity = new_cap }))
        s

-- `memcpy(s->bytes + s->len, bytes, len)`
abbrev pub copy : Bytes → Exec AllocSink (Unit {0})
copy bs s =
    if ltb s.capacity (length s.content + length bs)
    then fault s
    else pure tt (record s { content = s.content ++ bs })

abbrev finish : Run AllocSink (Unit {0}) → Run Memory Bytes
finish (returned (ok _) s) = pure s.content s.memory
finish (returned (err e) s) = (free_if (ltb 0 s.capacity) >> fail e) s.memory
finish out_of_bounds = out_of_bounds
finish out_of_fuel = out_of_fuel

abbrev pub empty_sink : Memory → AllocSink
empty_sink m = record { content = []; capacity = 0; oom = false; memory = m }

module _ (h : Heap) where
  -- The part under `if (s->cap - s->len < len)`.
  unfoldable pub grow : ℕ → Exec AllocSink (Unit {0})
  unfolding double_while alloc free_if
  grow len s =
      (do
        new_cap ←
            or_else
              (double_while (λ c. ltb (sub64 c (length s.content)) len) growth_fuel
                (if s.capacity == 0 then 4096 else s.capacity))
              set_oom
        granted ← on_memory (alloc h new_cap)
        if granted then move new_cap else set_oom >> fail nomem)
        s

  unfoldable pub alloc_sink_append : Sink AllocSink
  unfolding grow
  alloc_sink_append bs s =
      if s.oom
      then fail nomem s
      else if ltb (sub64 s.capacity (length s.content)) (length bs)
      then (grow (length bs) >> copy bs) s
      else copy bs s

  -- bencode_emit_to_alloc: the first flag says whether neither result pointer is NULL.
  unfoldable pub emit_to_alloc : Bool → Option Value → Exec Memory Bytes
  unfolding allocator_check emit_value alloc_sink_append free_if
  emit_to_alloc out none = fail invalid_arg
  emit_to_alloc out (some v) =
      if not out
      then fail invalid_arg
      else lift {A = Unit {0}} (allocator_check h) >> λ m.
          finish (emit_value alloc_sink_append v (empty_sink m))
