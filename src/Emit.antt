-- ===== src/Emit.antt =====
-- src/emit.c: the emitter. A sink takes a chunk of bytes and returns a status; it is a parameter.
-- `snprintf` is the library's decimal printing, whose result is compared with the buffer's size.
pub mod Alloc
pub mod File
pub mod Roundtrip
mod Tests
pub mod Chunks
pub mod Sends
use bencode.Prelude.{
  ℕ, ◌+◌, Bytes, Bool, true, false, not, ◌||◌, Option, none, some, [], ◌∷◌, ◌++◌, leb, ◌==◌,
  if◌then◌else◌, length,
}
use bencode.Prelude.Int.{ℤ}
use bencode.Status.{Status, ok, err, invalid_arg, io}
use bencode.Decimal.{decimal, signed}
use bencode.Exec.{Exec, pure, fail, lift, ◌>>=◌, ◌>>◌}
use bencode.Value.{
  Value, Elements, Fields, int_value, string_value, list_value, dict_value, no_elements, element,
  no_fields, field,
}

-- The size of `buf` in emit_int and of `header` in emit_string.
abbrev pub buffer_size : ℕ
buffer_size = 32

abbrev pub Sink : Type 0 → Type 0
Sink S = Bytes → Exec S (Unit {0})

module _ {S : Type 0} (emit : Sink S) where
  unfoldable pub emit_bytes : Bytes → Exec S (Unit {0})
  emit_bytes bs = if length bs == 0 then pure tt else emit bs

  -- `n < 0` does not occur: the formats have no encoding errors.
  unfoldable pub emit_printed : Bytes → Exec S (Unit {0})
  unfolding emit_bytes
  emit_printed text = if leb buffer_size (length text) then fail io else emit_bytes text

  unfoldable pub emit_int : ℤ → Exec S (Unit {0})
  unfolding emit_printed
  emit_int i = emit_printed (b'i' ∷ (signed i ++ b'e' ∷ []))

  unfoldable pub emit_string : Bytes → Exec S (Unit {0})
  unfolding emit_printed
  emit_string bs = emit_printed (decimal (length bs) ++ b':' ∷ []) >> emit_bytes bs

  unfoldable mutual
    unfolding emit_int emit_string emit_bytes

    pub emit_value : Value → Exec S (Unit {0})
    emit_value (int_value i) = emit_int i
    emit_value (string_value bs owned) = emit_string bs
    emit_value (list_value xs capacity) =
        emit_bytes (b'l' ∷ []) >> (emit_elements xs >> emit_bytes (b'e' ∷ []))
    emit_value (dict_value fs capacity) =
        emit_bytes (b'd' ∷ []) >> (emit_fields fs >> emit_bytes (b'e' ∷ []))

    -- The loop of emit_list.
    pub emit_elements : Elements → Exec S (Unit {0})
    emit_elements no_elements = pure tt
    emit_elements (element v xs) = emit_value v >> emit_elements xs

    -- The loop of emit_dict, in storage order.
    pub emit_fields : Fields → Exec S (Unit {0})
    emit_fields no_fields = pure tt
    emit_fields (field k v fs) = emit_string k >> (emit_value v >> emit_fields fs)

module _ {S : Type 0} where
  -- bencode_emit, where either pointer may be NULL.
  unfoldable pub emit : Option Value → Option (Sink S) → Exec S (Unit {0})
  unfolding emit_value
  emit none sink = fail invalid_arg
  emit (some v) none = fail invalid_arg
  emit (some v) (some sink) = emit_value sink v

-- What the emitter calls of <stdio.h>: `fwrite` returns how many bytes it wrote, `fflush` whether
-- it returned 0.
pub record Stdio (S : Type 0) : Type 0 where
  pub fwrite : Bytes → S → ℕ × S
  pub fflush : S → Bool × S

module _ {S : Type 0} (stdio : Stdio S) where
  abbrev pub written : ℕ → ℕ × S → Status × S
  written len (n, s) = (if n == len then ok tt else err io, s)

  abbrev pub flushed : Bool × S → Status × S
  flushed (done, s) = (if done then ok tt else err io, s)

  abbrev pub give : Status × S → Exec S (Unit {0})
  give (st, s) _ = lift st s

  unfoldable pub emit_to_file_cb : Sink S
  emit_to_file_cb bs s = give (written (length bs) (stdio.fwrite bs s)) s

  -- bencode_emit_to_file: the first flag says whether `out` is not NULL.
  unfoldable pub emit_to_file : Bool → Option Value → Exec S (Unit {0})
  unfolding emit_value emit_to_file_cb
  emit_to_file out none = fail invalid_arg
  emit_to_file out (some v) =
      if not out
      then fail invalid_arg
      else (emit_value emit_to_file_cb v >> λ s. give (flushed (stdio.fflush s)) s)
