-- ===== src/Emit/Sends.antt =====
-- The emitter sends the chunks of a value in order, up to the first that the sink refuses.
use bencode.Prelude.{
  ℕ, ◌≤◌, ◌<◌, ◌≡◌, refl, sym, ap, Bytes, List, [], ◌∷◌, ◌++◌, All, length, leb, ◌==◌, false, arith,
  some, length-append_bytes,
}
use bencode.Prelude.Int.{ℤ, IsInt64}
use bencode.Status.{ok, err}
use bencode.Decimal.{decimal, signed}
use bencode.Decimal.Width.{length-decimal, length-signed}
use bencode.Grammar.{encode, IsCanonical, IsCanonicalItems, IsCanonicalEntries, IsSized}
use bencode.Exec.{Run, Exec, returned, out_of_bounds, out_of_fuel, pure, and_then, ◌>>◌}
use bencode.Value.{
  Value, Elements, Fields, int_value, string_value, list_value, dict_value, no_elements, element,
  no_fields, field, view, view_elements, view_fields,
}
use bencode.Emit.{
  Sink, emit, buffer_size, emit_bytes, emit_printed, emit_int, emit_string, emit_value,
  emit_elements, emit_fields,
}
use bencode.Emit.Chunks.{
  chunk, concat, concat-chunks, IsFilled, chunks-All, string_chunks, chunks, chunks_elements,
  chunks_fields,
}

module _ {S : Type 0} where
  and_then-pure : (r : Run S (Unit {0})) → and_then r (λ _. pure tt) ≡ r
  and_then-pure (returned (ok _) s) = refl
  and_then-pure (returned (err e) s) = refl
  and_then-pure out_of_bounds = refl
  and_then-pure out_of_fuel = refl

  and_then_assoc :
      (r : Run S (Unit {0})) (a b : Exec S (Unit {0}))
      → and_then (and_then r (λ _. a)) (λ _. b) ≡ and_then r (λ _. a >> b)
  and_then_assoc (returned (ok _) s) a b = refl
  and_then_assoc (returned (err e) s) a b = refl
  and_then_assoc out_of_bounds a b = refl
  and_then_assoc out_of_fuel a b = refl

-- The action of a sink on several chunks.
module _ {S : Type 0} (sink : Sink S) where
  abbrev pub send : List Bytes → Exec S (Unit {0})
  send [] = pure tt
  send (b ∷ bs) = sink b >> send bs

  send-append :
      (xs ys : List Bytes) (s : S) → send (xs ++ ys) s ≡ and_then (send xs s) (λ _. send ys)
  send-append [] ys s = refl
  send-append (x ∷ xs) ys s =
      let e : send (xs ++ ys) ≡ (send xs >> send ys) = λ i s'. send-append xs ys s' i in
      rw (e) (sym (and_then_assoc (sink x s) (send xs) (send ys)))

  -- The action sends exactly these chunks.
  pub record Sends (cs : List Bytes) (action : Exec S (Unit {0})) : Type 0 where
    pub sends : action ≡ send cs

  Sends-then :
      {xs ys : List Bytes} {a b : Exec S (Unit {0})}
      → Sends xs a
      → Sends ys b
      → Sends (xs ++ ys) (a >> b)
  Sends-then {xs} {ys} sa sb = record {
    sends = rw (sa.sends, sb.sends) (λ i s. sym (send-append xs ys s) i);
  }

  Sends-emit_bytes : (bs : Bytes) → Sends (chunk bs) (emit_bytes sink bs)
  unfolding emit_bytes
  Sends-emit_bytes [] = record { sends = refl }
  Sends-emit_bytes (c ∷ cs) =
      let test : (length (c ∷ cs) == 0) ≡ false = ground arith in
      record { sends = rw test (λ i s. sym (and_then-pure (sink (c ∷ cs) s)) i) }

  lt→leb : (a b : ℕ) → a < b → leb b a ≡ false
  lt→leb a b h = ground arith

  -- A text that fits the buffer is sent as it is.
  Sends-emit_printed :
      (c : ℕ) (cs : Bytes)
      → length (c ∷ cs) < buffer_size
      → Sends ((c ∷ cs) ∷ []) (emit_printed sink (c ∷ cs))
  unfolding emit_printed
  Sends-emit_printed c cs small =
      rw (lt→leb (length (c ∷ cs)) buffer_size small) (Sends-emit_bytes (c ∷ cs))

  -- A number and a colon.
  Sends-header :
      (cs : Bytes)
      → length cs ≤ 20
      → Sends ((cs ++ b':' ∷ []) ∷ []) (emit_printed sink (cs ++ b':' ∷ []))
  Sends-header [] small = Sends-emit_printed b':' [] (omega arith)
  Sends-header (c ∷ cs) small =
      Sends-emit_printed c (cs ++ b':' ∷ []) (omega (arith, length-append_bytes cs (b':' ∷ [])))

  Sends-emit_int :
      (i : ℤ) → IsInt64 i → Sends ((b'i' ∷ (signed i ++ b'e' ∷ [])) ∷ []) (emit_int sink i)
  unfolding emit_int
  Sends-emit_int i fits =
      Sends-emit_printed b'i' (signed i ++ b'e' ∷ [])
        (omega (arith, length-append_bytes (signed i) (b'e' ∷ []), length-signed i fits))

  Sends-emit_string : (bs : Bytes) → IsSized bs → Sends (string_chunks bs) (emit_string sink bs)
  unfolding emit_string
  Sends-emit_string bs sized =
      Sends-then {ys = chunk bs}
        (Sends-header (decimal (length bs)) (length-decimal (length bs) sized))
        (Sends-emit_bytes bs)

  mutual
    unfolding emit_value chunks view

    -- The emitter sends the chunks of the value.
    pub emit_value-Sends : (v : Value) → IsCanonical (view v) → Sends (chunks v) (emit_value sink v)
    emit_value-Sends (int_value i) fits = Sends-emit_int i fits
    emit_value-Sends (string_value bs owned) sized = Sends-emit_string bs sized
    emit_value-Sends (list_value xs capacity) good =
        Sends-then (Sends-emit_bytes (b'l' ∷ []))
          (Sends-then (emit_elements-Sends xs good) (Sends-emit_bytes (b'e' ∷ [])))
    emit_value-Sends (dict_value fs capacity) good =
        Sends-then (Sends-emit_bytes (b'd' ∷ []))
          (Sends-then (emit_fields-Sends fs good) (Sends-emit_bytes (b'e' ∷ [])))

    emit_elements-Sends :
        (xs : Elements)
        → IsCanonicalItems (view_elements xs)
        → Sends (chunks_elements xs) (emit_elements sink xs)
    emit_elements-Sends no_elements _ = record { sends = refl }
    emit_elements-Sends (element v xs) (cv, cs) =
        Sends-then (emit_value-Sends v cv) (emit_elements-Sends xs cs)

    emit_fields-Sends :
        (fs : Fields)
        → IsCanonicalEntries (view_fields fs)
        → Sends (chunks_fields fs) (emit_fields sink fs)
    emit_fields-Sends no_fields _ = record { sends = refl }
    emit_fields-Sends (field k v fs) (sized, _, cv, cs) =
        Sends-then (Sends-emit_string k sized)
          (Sends-then (emit_value-Sends v cv) (emit_fields-Sends fs cs))

  -- bencode_emit, for a tree whose value the format can represent: the sink gets the chunks in
  -- order, up to the first that it refuses. None is empty, and together they are the canonical
  -- encoding.
  pub emit_exact :
      (v : Value) (s : S)
      → IsCanonical (view v)
      → (emit (some v) (some sink) s ≡ send (chunks v) s)
        × All IsFilled (chunks v)
        × (concat (chunks v) ≡ encode (view v))
  unfolding emit
  emit_exact v s canonical =
      let w = emit_value-Sends v canonical in (ap (λ a. a s) w.sends, chunks-All v, concat-chunks v)
