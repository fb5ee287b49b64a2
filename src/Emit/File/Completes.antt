-- ===== src/Emit/File/Completes.antt =====
-- Where writing and flushing succeed, so does the emitter.
use bencode.Prelude.{
  ℕ, ◌≡◌, refl, Bytes, Bool, true, some, List, [], ◌∷◌, ◌++◌, length, ◌==◌, arith,
}
use bencode.Status.{ok}
use bencode.Grammar.{encode, IsCanonical}
use bencode.Exec.{Run, Exec, returned, and_then}
use bencode.Exec.Ensures.{Ensures-ok}
use bencode.Value.{Value, view}
use bencode.Emit.{Sink, Stdio, emit_to_file_cb, emit_to_file, written, flushed, give}
use bencode.Emit.Chunks.{chunks}
use bencode.Emit.Sends.{send, emit_value-Sends}
use bencode.Emit.File.{emit_to_file-Ensures}

-- The run returns BENCODE_OK.
abbrev pub Succeeds : {S : Type 0} → Run S (Unit {0}) → Type 0
Succeeds {S} r = (t : S) × (r ≡ returned (ok tt) t)

Succeeds-then :
    {S : Type 0} {r : Run S (Unit {0})} (k : Exec S (Unit {0}))
    → Succeeds r
    → ((t : S) → Succeeds (k t))
    → Succeeds (and_then r (λ _. k))
Succeeds-then k (t, e) next = let (u, f) = next t in (u, rw e f)

-- A sink that takes every chunk gets all of them.
Succeeds-send :
    {S : Type 0} (sink : Sink S)
    → ((bs : Bytes) (s : S) → Succeeds (sink bs s))
    → (cs : List Bytes) (s : S) → Succeeds (send sink cs s)
Succeeds-send sink takes [] s = (s, refl)
Succeeds-send sink takes (c ∷ cs) s =
    Succeeds-then (send sink cs) (takes c s) (Succeeds-send sink takes cs)

module _ {S : Type 0} (stdio : Stdio S)
    (whole : (bs : Bytes) (s : S) → (stdio.fwrite bs s).0 ≡ length bs)
    (flushes : (s : S) → (stdio.fflush s).0 ≡ true) where
  write_Succeeds :
      (bs : Bytes) (s : S) (r : ℕ × S)
      → r.0 ≡ length bs
      → Succeeds (give stdio (written stdio (length bs) r) s)
  write_Succeeds bs s (n, t) e =
      let same : (n == length bs) ≡ true = ground (arith, e) in (t, rw same refl)

  cb_Succeeds : (bs : Bytes) (s : S) → Succeeds (emit_to_file_cb stdio bs s)
  unfolding emit_to_file_cb
  cb_Succeeds bs s = write_Succeeds bs s (stdio.fwrite bs s) (whole bs s)

  flush_Succeeds : (s : S) (r : Bool × S) → r.0 ≡ true → Succeeds (give stdio (flushed stdio r) s)
  flush_Succeeds s (done, t) e = (t, rw e refl)

  file_Succeeds :
      (v : Value) (s : S) → IsCanonical (view v) → Succeeds (emit_to_file stdio true (some v) s)
  unfolding emit_to_file
  file_Succeeds v s canonical =
      let w = emit_value-Sends (emit_to_file_cb stdio) v canonical in
      rw w.sends (
        Succeeds-then (λ t. give stdio (flushed stdio (stdio.fflush t)) t)
          (Succeeds-send (emit_to_file_cb stdio) cb_Succeeds (chunks v) s)
          (λ t. flush_Succeeds t (stdio.fflush t) (flushes t)))

  -- With an fwrite that writes all that it is given and an fflush that succeeds and loses nothing,
  -- bencode_emit_to_file returns BENCODE_OK for every tree whose value the format can represent,
  -- and the file has grown by exactly the canonical encoding of the value.
  pub emit_to_file-Completes :
      (contents : S → Bytes)
      → ((bs : Bytes) (s : S)
          → (stdio.fwrite bs s).0 ≡ length bs
          → contents (stdio.fwrite bs s).1 ≡ contents s ++ bs)
      → ((s : S) → (stdio.fflush s).0 ≡ true → contents (stdio.fflush s).1 ≡ contents s)
      → (v : Value) (s : S) → IsCanonical (view v)
      → (t : S) × (emit_to_file stdio true (some v) s ≡ returned (ok tt) t)
        × (contents t ≡ contents s ++ encode (view v))
  emit_to_file-Completes contents writes keeps v s canonical =
      let (t, e) = file_Succeeds v s canonical in
      (t, e, Ensures-ok (emit_to_file-Ensures stdio contents writes keeps v s canonical) e)
