-- ===== src/Cli/Reads/Whole.antt =====
-- read_all returns all that is left of a stream, or no block.
use bencode.Prelude.{
  ℕ, suc, ◌+◌, ◌≤◌, ◌≡◌, ◌∙◌, sym, ap, refl, inl, inr, Bytes, Bool, true, false, not, Option, none,
  some, [], Bool-cases, length, arith, if◌then◌else◌,
}
use bencode.Prelude.Int.{size_max}
use bencode.Status.{nomem}
use bencode.Exec.{Run, and_then, ◌>>◌, fail, lift}
use bencode.Exec.Ensures
use bencode.Exec.Ensures.{Ensures, returns, raises}
use bencode.Memory.{Memory, alloc}
use bencode.Cli.{
  Platform, World, world, read_loop, read_fuel, read_stream, read_opened, close_input, keep,
  open_input, is_stdin, read_all,
}
use bencode.Cli.Reads.{Streams, Whole, Dropped, read_loop-Ensures}

-- The call of malloc for the buffer.
abbrev pub Held : ℕ → Bool → Memory → Type 0
Held others granted m = m.live ≡ (if granted then suc others else others)

module _ {F S : Type 0} (left : F → S → Bytes) where
  -- What there is to read behind a call that opens a stream.
  abbrev pub input_of : Option F × S → Option Bytes
  input_of (none, s) = none
  input_of (some fp, s) = some (left fp s)

module _ {S : Type 0} (contents : S → Bytes) where
  -- The buffer holds the whole input, in one new block.
  abbrev pub HasRead : Option Bytes → ℕ → Bytes → Bytes → World S → Type 0
  HasRead input live output buf t =
      (input ≡ some buf)
      × (t.memory.live ≡ suc live)
      × (contents t.outside ≡ output)
      × (length buf ≤ size_max)

module _ {F S : Type 0} (os : Platform F S) (left : F → S → Bytes) (contents : S → Bytes)
    (streams : Streams os left contents) where
  start-Ensures :
      (fp : F) (others : ℕ) (granted : Bool) (w : World S)
      → Held others granted w.memory
      → Ensures
          (Whole os left contents streams others fp (left fp w.outside) (contents w.outside))
          (Dropped os left contents streams others fp (left fp w.outside) (contents w.outside))
          ((if not granted then fail nomem else read_loop os read_fuel fp [] 4096) w)
  start-Ensures fp others false w held = raises held
  start-Ensures fp others true w held =
      read_loop-Ensures os left contents streams others fp (left fp w.outside) (contents w.outside)
        read_fuel [] 4096 w
        (record {
          owned = held;
          positive = omega arith;
          sized = omega arith;
          within = omega arith;
          same = refl;
          quiet = refl;
        })
        (omega arith)

  -- From malloc to the end of the loop.
  pub read_stream-Ensures :
      (fp : F) (w : World S)
      → Ensures
          (λ buf t.
            (buf ≡ left fp w.outside)
            × (t.memory.live ≡ suc w.memory.live)
            × (contents t.outside ≡ contents w.outside)
            × (length buf ≤ size_max))
          (λ _ t. t.memory.live ≡ w.memory.live)
          (read_stream os fp w)
  unfolding read_stream alloc
  read_stream-Ensures fp w =
      start-Ensures fp w.memory.live (os.malloc w.memory.requests 4096)
        (world
          (record {
            requests = w.memory.requests + 1;
            live = if os.malloc w.memory.requests 4096 then suc w.memory.live else w.memory.live;
          })
          w.outside)
        refl

  finish-Ensures :
      (from_stdin : Bool) (fp : F) (live : ℕ) (whole output : Bytes) {r : Run (World S) Bytes}
      → Ensures
          (λ buf t.
            (buf ≡ whole)
            × (t.memory.live ≡ suc live)
            × (contents t.outside ≡ output)
            × (length buf ≤ size_max))
          (λ _ t. t.memory.live ≡ live)
          r
      → Ensures
          (HasRead contents (some whole) live output)
          (λ _ t. t.memory.live ≡ live)
          (and_then (keep r) λ rc. close_input os from_stdin fp >> lift rc)
  finish-Ensures true fp live whole output (returns (same, owns, quiet, sized)) =
      returns (ap some (sym same), owns, quiet, sized)
  finish-Ensures false fp live whole output (returns {s} (same, owns, quiet, sized)) =
      returns (ap some (sym same), owns, streams.fclose_quiet fp s.outside ∙ quiet, sized)
  finish-Ensures true fp live whole output (raises owns) = raises owns
  finish-Ensures false fp live whole output (raises owns) = raises owns

  opened-Ensures :
      (from_stdin : Bool) (m : Memory) (output : Bytes) (o : Option F × S)
      → contents o.1 ≡ output
      → Ensures
          (HasRead contents (input_of left o) m.live output)
          (λ _ t. t.memory.live ≡ m.live)
          (read_opened os from_stdin m o)
  opened-Ensures from_stdin m output (none, s) quiet = raises refl
  opened-Ensures from_stdin m output (some fp, s) quiet =
      finish-Ensures from_stdin fp m.live (left fp s) output (
        Ensures.mono (read_stream-Ensures fp (world m s))
          (λ _ _ (same, owns, kept, sized). (same, owns, kept ∙ quiet, sized)) (λ _ _ q. q))

  open_quiet : (path : Option Bytes) (s : S) → contents (open_input os path s).1 ≡ contents s
  unfolding open_input
  open_quiet none s = refl
  open_quiet (some path) s = elim (Bool-cases (is_stdin (some path))) [
    | inl standard ↦ rw standard refl
    | inr named ↦ rw named (streams.fopen_quiet path s)
  ]

  -- With an fread that puts a prefix of what is left into the buffer, no more than it is asked for,
  -- and that puts nothing only at the end or on an error that ferror tells, read_all returns
  -- within its fuel, whatever stream it reads. It returns all that was left of the opened stream,
  -- in one new block, and writes nothing; or it fails with no block live in addition.
  pub read_all-Ensures :
      (path : Option Bytes) (w : World S)
      → Ensures
          (HasRead contents
            (input_of left (open_input os path w.outside))
            w.memory.live
            (contents w.outside))
          (λ _ t. t.memory.live ≡ w.memory.live)
          (read_all os path w)
  unfolding read_all
  read_all-Ensures path w =
      opened-Ensures (is_stdin path) w.memory (contents w.outside) (open_input os path w.outside)
        (open_quiet path w.outside)
