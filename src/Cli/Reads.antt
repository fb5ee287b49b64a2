-- ===== src/Cli/Reads.antt =====
-- The loop of read_all reads all that is left of a stream.
pub mod Whole
use bencode.Prelude.{
  ℕ, zero, suc, ◌+◌, ◌-◌, ◌≤◌, ◌<◌, ◌≡◌, ◌∙◌, sym, ap, refl, subst, inl, inr, Bytes, Bool, true,
  false, not, Option, none, some, [], ◌∷◌, ◌++◌, ◌==◌, ==_iff, Bool-cases, length, ltb, ltb→le, ◌/◌,
  length-append_bytes, append_assoc, append-nil, arith, if◌then◌else◌,
}
use bencode.Prelude.Int.{size_max}
use bencode.Prelude.Word.{mul64}
use bencode.Status.{Error, Result, ok, err, nomem, io}
use bencode.Exec.{Run, returned, Exec, and_then, ◌>>=◌, ◌>>◌, pure, fail, lift}
use bencode.Exec.Ensures
use bencode.Exec.Ensures.{Ensures, returns, raises}
use bencode.Memory.{Memory, free, alloc, grants, book}
use bencode.Memory.Frees.{Frees-run, Frees-free}
use bencode.Cli.{
  Platform, World, world, libc, on_heap, enclose, attempt, realloc, grow_buf, end_of_file,
  delivered, fread_at_most, read_loop, read_fuel, read_stream, read_opened, close_input, keep,
  open_input, is_stdin, read_all,
}
use bencode.Cli.Attempts.{on_heap-Ensures}
use bencode.Cli.Grows.{free_then_fail, grow_buf-Ensures}

-- What `fread` and `ferror` do with what is left of a stream. No call that reads writes to the
-- output.
pub record Streams {F S : Type 0} (os : Platform F S) (left : F → S → Bytes) (contents : S → Bytes)
    : Type 0 where
  pub fits : (fp : F) (n : ℕ) (s : S) → length (os.fread fp n s).0 ≤ n
  pub split :
      (fp : F) (n : ℕ) (s : S) → left fp s ≡ (os.fread fp n s).0 ++ left fp (os.fread fp n s).1
  pub ends :
      (fp : F) (n : ℕ) (s : S)
      → 1 ≤ n
      → length (os.fread fp n s).0 ≡ 0
      → os.ferror fp (os.fread fp n s).1 ≡ false
      → left fp (os.fread fp n s).1 ≡ []
  pub fopen_quiet : (path : Bytes) (s : S) → contents (os.fopen path s).1 ≡ contents s
  pub fread_quiet : (fp : F) (n : ℕ) (s : S) → contents (os.fread fp n s).1 ≡ contents s
  pub fclose_quiet : (fp : F) (s : S) → contents (os.fclose fp s) ≡ contents s

module _ {F S : Type 0} (os : Platform F S) (left : F → S → Bytes) (contents : S → Bytes)
    (streams : Streams os left contents) (others : ℕ) (fp : F) (whole output : Bytes) where
  -- The buffer holds all that was left of the stream.
  abbrev pub Whole : Bytes → World S → Type 0
  Whole buf w =
      (buf ≡ whole)
      × (w.memory.live ≡ suc others)
      × (contents w.outside ≡ output)
      × (length buf ≤ size_max)

  abbrev pub Dropped : Error → World S → Type 0
  Dropped e w = w.memory.live ≡ others

  drop_buffer-Ensures :
      (m : Memory) (s : S)
      → m.live ≡ suc others
      → Ensures Whole Dropped ((on_heap free >> fail io) (world m s))
  drop_buffer-Ensures m s owns =
      rw (Frees-run others m Frees-free (omega (arith, owns))) (raises refl)

  end_of_file-Ensures :
      (buf : Bytes) (m : Memory) (s : S) (error : Bool)
      → os.ferror fp s ≡ error
      → (error ≡ false → left fp s ≡ [])
      → buf ++ left fp s ≡ whole
      → m.live ≡ suc others
      → contents s ≡ output
      → length buf ≤ size_max
      → Ensures Whole Dropped (end_of_file os fp buf (world m s))
  unfolding end_of_file
  end_of_file-Ensures buf m s true e ends same owns quiet sized =
      rw e (drop_buffer-Ensures m s owns)
  end_of_file-Ensures buf m s false e ends same owns quiet sized = rw e (
      returns
        (sym (append-nil buf) ∙ (ap (λ r. buf ++ r) (sym (ends refl)) ∙ same), owns, quiet, sized))

  -- What the loop needs of the buffer and its capacity.
  pub record IsReading (buf : Bytes) (capacity : ℕ) (w : World S) : Type 0 where
    pub owned : w.memory.live ≡ suc others
    pub positive : 1 ≤ capacity
    pub sized : capacity ≤ size_max
    pub within : length buf ≤ capacity
    pub same : buf ++ left fp w.outside ≡ whole
    pub quiet : contents w.outside ≡ output

  -- There is room behind the buffer.
  abbrev HasRoom : Bytes → ℕ → World S → Type 0
  HasRoom buf room w = IsReading buf room w × (length buf < room)

  room-Ensures :
      (buf : Bytes) (capacity : ℕ) (w : World S)
      → IsReading buf capacity w
      → Ensures
          (HasRoom buf)
          Dropped
          ((if length buf == capacity then on_heap (grow_buf os capacity) else pure capacity) w)
  room-Ensures buf capacity w inv = elim (Bool-cases (length buf == capacity)) [
    | inl full ↦
        let e : length buf ≡ capacity = (==_iff (length buf) capacity).0 full in
        rw full (
          Ensures.mono
            (on_heap-Ensures w.outside
              (grow_buf-Ensures os others capacity w.memory inv.positive inv.owned))
            (λ room t ((longer, sized, owned), unchanged). (
              record {
                owned = owned;
                positive = omega arith;
                sized = sized;
                within = omega arith;
                same = ap (λ o. buf ++ left fp o) unchanged ∙ inv.same;
                quiet = ap contents unchanged ∙ inv.quiet;
              },
              omega arith,
            ))
            (λ _ _ (q, _). q))
    | inr short ↦ rw short (returns (inv, ground (arith, inv.within)))
  ]

  -- What was read, and the streams behind the call.
  record IsRead (buf : Bytes) (room : ℕ) (o : Bytes × S) : Type 0 where
    fits : length o.0 ≤ room - length buf
    same : buf ++ (o.0 ++ left fp o.1) ≡ whole
    quiet : contents o.1 ≡ output
    ends : length o.0 ≡ 0 → os.ferror fp o.1 ≡ false → left fp o.1 ≡ []

  fread-IsRead :
      (buf : Bytes) (room : ℕ) (w : World S)
      → HasRoom buf room w
      → IsRead buf room (os.fread fp (room - length buf) w.outside)
  fread-IsRead buf room w (inv, short) = record {
    fits = streams.fits fp (room - length buf) w.outside;
    same = ap (λ r. buf ++ r) (sym (streams.split fp (room - length buf) w.outside)) ∙ inv.same;
    quiet = streams.fread_quiet fp (room - length buf) w.outside ∙ inv.quiet;
    ends = streams.ends fp (room - length buf) w.outside (omega arith);
  }

  empty_read : (got rest : Bytes) → length got ≡ 0 → got ++ rest ≡ rest
  empty_read [] rest e = refl
  empty_read (c ∷ cs) rest e = absurd (omega (arith, e))

  -- A read that gives nothing ends the loop; any other goes on, with one unit of fuel less.
  step-Ensures :
      (next : Bytes → Exec (World S) Bytes) (buf : Bytes) (room : ℕ) (w : World S) (o : Bytes × S)
      → HasRoom buf room w
      → IsRead buf room o
      → ((got : Bytes) (s : S)
          → 1 ≤ length got
          → IsReading (buf ++ got) room (world w.memory s)
          → Ensures Whole Dropped (next got (world w.memory s)))
      → Ensures Whole Dropped (
          and_then
            (delivered os w.memory o)
            λ got. if length got == 0 then end_of_file os fp buf else next got)
  step-Ensures next buf room w (got, s) (inv, short) read continue =
      elim (Bool-cases (length got == 0)) [
        | inl none_read ↦
            let e : length got ≡ 0 = (==_iff (length got) 0).0 none_read in
            rw none_read (
              end_of_file-Ensures buf w.memory s (os.ferror fp s) refl (read.ends e)
                (ap (λ r. buf ++ r) (sym (empty_read got (left fp s) e)) ∙ read.same) inv.owned
                read.quiet (omega (arith, inv.within, inv.sized)))
        | inr some_read ↦ rw some_read (
            continue got s (ground arith) (record {
              owned = inv.owned;
              positive = inv.positive;
              sized = inv.sized;
              within = omega (arith, read.fits, length-append_bytes buf got);
              same = append_assoc buf got (left fp s) ∙ read.same;
              quiet = read.quiet;
            }))
      ]

  pub read_loop-Ensures :
      (fuel : ℕ) (buf : Bytes) (capacity : ℕ) (w : World S)
      → IsReading buf capacity w
      → size_max + 2 ≤ fuel + length buf
      → Ensures Whole Dropped (read_loop os fuel fp buf capacity w)
  unfolding read_loop
  read_loop-Ensures zero buf capacity w inv enough =
      absurd (omega (arith, inv.within, inv.sized, enough))
  read_loop-Ensures (suc f) buf capacity w inv enough =
      Ensures.bind
        {k = λ room. fread_at_most os fp (room - length buf) >>= λ got.
          if length got == 0 then end_of_file os fp buf else read_loop os f fp (buf ++ got) room}
        (room-Ensures buf capacity w inv)
        (λ room t ready.
          step-Ensures (λ got. read_loop os f fp (buf ++ got) room) buf room t
            (os.fread fp (room - length buf) t.outside) ready (fread-IsRead buf room t ready)
            λ got s positive good.
              read_loop-Ensures f (buf ++ got) room (world t.memory s) good
                (omega (arith, length-append_bytes buf got)))
        (λ _ _ q. q)
