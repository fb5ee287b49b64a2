-- ===== src/Emit/File.antt =====
-- bencode_emit_to_file, for an `fwrite` and an `fflush` that have done their work when they report
-- no error.
pub mod Completes
use bencode.Prelude.{
  ℕ, ◌≡◌, ◌∙◌, sym, ap, refl, Bytes, Bool, true, false, some, List, [], ◌∷◌, ◌++◌, length, take,
  ◌==◌, ==_iff, Bool-cases, inl, inr, append_assoc, append-nil, take-append,
}
use bencode.Status.{Error, io}
use bencode.Grammar.{encode, IsCanonical}
use bencode.Exec.Ensures
use bencode.Exec.Ensures.{Ensures, returns, raises}
use bencode.Value.{Value, view}
use bencode.Emit.{Stdio, emit_to_file_cb, emit_to_file, written, flushed, give}
use bencode.Emit.Chunks.{chunks, concat, concat-chunks}
use bencode.Emit.Sends.{send, emit_value-Sends}

module _ {S : Type 0} (stdio : Stdio S) (contents : S → Bytes)
    (writes : (bs : Bytes) (s : S)
      → (stdio.fwrite bs s).0 ≡ length bs
      → contents (stdio.fwrite bs s).1 ≡ contents s ++ bs)
    (keeps : (s : S) → (stdio.fflush s).0 ≡ true → contents (stdio.fflush s).1 ≡ contents s) where
  -- The file has grown by exactly these bytes.
  abbrev pub Grows : S → Bytes → S → Type 0
  Grows s bs t = contents t ≡ contents s ++ bs

  abbrev pub IsIo : Error → S → Type 0
  IsIo e t = e ≡ io

  write_Ensures :
      (bs : Bytes) (s : S) (r : ℕ × S)
      → (r.0 ≡ length bs → contents r.1 ≡ contents s ++ bs)
      → Ensures (λ _ t. Grows s bs t) IsIo (give stdio (written stdio (length bs) r) s)
  write_Ensures bs s (n, t) e = elim (Bool-cases (n == length bs)) [
    | inl whole ↦ rw whole (returns (e ((==_iff n (length bs)).0 whole)))
    | inr short ↦ rw short (raises refl)
  ]

  cb_Ensures :
      (bs : Bytes) (s : S) → Ensures (λ _ t. Grows s bs t) IsIo (emit_to_file_cb stdio bs s)
  unfolding emit_to_file_cb
  cb_Ensures bs s = write_Ensures bs s (stdio.fwrite bs s) (writes bs s)

  send_Ensures :
      (cs : List Bytes) (s : S)
      → Ensures (λ _ t. Grows s (concat cs) t) IsIo (send (emit_to_file_cb stdio) cs s)
  send_Ensures [] s = returns (sym (append-nil (contents s)))
  send_Ensures (c ∷ cs) s =
      Ensures.bind {k = λ _. send (emit_to_file_cb stdio) cs} (cb_Ensures c s)
        (λ _ t e.
          Ensures.mono (send_Ensures cs t)
            (λ _ u f. f ∙ ap (λ x. x ++ concat cs) e ∙ append_assoc (contents s) c (concat cs))
            (λ _ _ q. q))
        (λ _ _ q. q)

  flush_Ensures :
      (s t : S) (bs : Bytes) (r : Bool × S)
      → Grows s bs t
      → (r.0 ≡ true → contents r.1 ≡ contents t)
      → Ensures (λ _ u. Grows s bs u) IsIo (give stdio (flushed stdio r) t)
  flush_Ensures s t bs (true, u) e f = returns (f refl ∙ e)
  flush_Ensures s t bs (false, u) e f = raises refl

  -- For a tree whose value the format can represent, with an fwrite that has appended its argument
  -- when it returns the length of it, and an fflush that has lost nothing when it returns 0,
  -- bencode_emit_to_file returns: BENCODE_OK, and the file has grown by exactly the canonical
  -- encoding of the value, or BENCODE_ERR_IO. Nothing is assumed of a call that reports an error.
  pub emit_to_file-Ensures :
      (v : Value) (s : S)
      → IsCanonical (view v)
      → Ensures (λ _ t. Grows s (encode (view v)) t) IsIo (emit_to_file stdio true (some v) s)
  unfolding emit_to_file
  emit_to_file-Ensures v s canonical =
      let w = emit_value-Sends (emit_to_file_cb stdio) v canonical in
      rw w.sends (
        Ensures.bind {k = λ _ t. give stdio (flushed stdio (stdio.fflush t)) t}
          (send_Ensures (chunks v) s)
          (λ _ t e.
            flush_Ensures s t (encode (view v)) (stdio.fflush t)
              (e ∙ ap (λ x. contents s ++ x) (concat-chunks v)) (keeps t))
          (λ _ _ q. q))
