-- ===== src/Emit/Chunks.antt =====
-- What the emitter sends: the canonical encoding of the value, in chunks that are not empty.
use bencode.Prelude.{
  ◌≤◌, ◌≡◌, refl, sym, ap, ◌∙◌, Bytes, List, [], ◌∷◌, ◌++◌, append_assoc, append-nil, All,
  All-append, length, arith, length-append_bytes,
}
use bencode.Decimal.{decimal, signed}
use bencode.Grammar.{encode, encode_items, encode_entries, encode_bytes}
use bencode.Value.{
  Value, Elements, Fields, int_value, string_value, list_value, dict_value, no_elements, element,
  no_fields, field, view, view_elements, view_fields,
}

-- A chunk of no bytes is not sent.
abbrev pub chunk : Bytes → List Bytes
chunk [] = []
chunk (c ∷ cs) = (c ∷ cs) ∷ []

abbrev pub string_chunks : Bytes → List Bytes
string_chunks bs = (decimal (length bs) ++ b':' ∷ []) ∷ chunk bs

unfoldable mutual
  pub chunks : Value → List Bytes
  chunks (int_value i) = (b'i' ∷ (signed i ++ b'e' ∷ [])) ∷ []
  chunks (string_value bs owned) = string_chunks bs
  chunks (list_value xs capacity) = (b'l' ∷ []) ∷ (chunks_elements xs ++ (b'e' ∷ []) ∷ [])
  chunks (dict_value fs capacity) = (b'd' ∷ []) ∷ (chunks_fields fs ++ (b'e' ∷ []) ∷ [])

  pub chunks_elements : Elements → List Bytes
  chunks_elements no_elements = []
  chunks_elements (element v xs) = chunks v ++ chunks_elements xs

  pub chunks_fields : Fields → List Bytes
  chunks_fields no_fields = []
  chunks_fields (field k v fs) = string_chunks k ++ (chunks v ++ chunks_fields fs)

abbrev pub concat : List Bytes → Bytes
concat [] = []
concat (b ∷ bs) = b ++ concat bs

pub concat-append : (xs ys : List Bytes) → concat (xs ++ ys) ≡ concat xs ++ concat ys
concat-append [] ys = refl
concat-append (x ∷ xs) ys = rw (concat-append xs ys) (sym (append_assoc x (concat xs) (concat ys)))

concat-string_chunks : (bs : Bytes) → concat (string_chunks bs) ≡ encode_bytes bs
unfolding encode_bytes
concat-string_chunks [] = append-nil (decimal 0 ++ b':' ∷ [])
concat-string_chunks (c ∷ cs) =
    rw (append-nil cs) (append_assoc (decimal (length (c ∷ cs))) (b':' ∷ []) (c ∷ cs))

mutual
  unfolding chunks view encode

  -- The chunks make up the encoding of the value that the tree represents.
  pub concat-chunks : (v : Value) → concat (chunks v) ≡ encode (view v)
  concat-chunks (int_value i) = append-nil (b'i' ∷ (signed i ++ b'e' ∷ []))
  concat-chunks (string_value bs owned) = concat-string_chunks bs
  concat-chunks (list_value xs capacity) =
      ap (λ t. b'l' ∷ t)
        (concat-append (chunks_elements xs) ((b'e' ∷ []) ∷ []) ∙ concat-chunks_elements xs)
  concat-chunks (dict_value fs capacity) =
      ap (λ t. b'd' ∷ t)
        (concat-append (chunks_fields fs) ((b'e' ∷ []) ∷ []) ∙ concat-chunks_fields fs)

  concat-chunks_elements :
      (xs : Elements) → concat (chunks_elements xs) ++ b'e' ∷ [] ≡ encode_items (view_elements xs)
  concat-chunks_elements no_elements = refl
  concat-chunks_elements (element v xs) = rw (
    concat-append (chunks v) (chunks_elements xs),
    concat-chunks v,
    append_assoc (encode (view v)) (concat (chunks_elements xs)) (b'e' ∷ []),
    concat-chunks_elements xs,
  )

  concat-chunks_fields :
      (fs : Fields) → concat (chunks_fields fs) ++ b'e' ∷ [] ≡ encode_entries (view_fields fs)
  concat-chunks_fields no_fields = refl
  concat-chunks_fields (field k v fs) =
      rw
        (
          concat-append (string_chunks k) (chunks v ++ chunks_fields fs),
          concat-append (chunks v) (chunks_fields fs),
          concat-string_chunks k,
          concat-chunks v,
          append_assoc (encode_bytes k) (encode (view v) ++ concat (chunks_fields fs)) (b'e' ∷ []),
          append_assoc (encode (view v)) (concat (chunks_fields fs)) (b'e' ∷ []),
          concat-chunks_fields fs,
        )
        refl

abbrev pub IsFilled : Bytes → Type 0
IsFilled bs = 1 ≤ length bs

chunk-All : (bs : Bytes) → All IsFilled (chunk bs)
chunk-All [] = tt
chunk-All (c ∷ cs) = (omega arith, tt)

string_chunks-All : (bs : Bytes) → All IsFilled (string_chunks bs)
string_chunks-All bs =
    (omega (arith, length-append_bytes (decimal (length bs)) (b':' ∷ [])), chunk-All bs)

mutual
  unfolding chunks

  pub chunks-All : (v : Value) → All IsFilled (chunks v)
  chunks-All (int_value i) = (omega arith, tt)
  chunks-All (string_value bs owned) = string_chunks-All bs
  chunks-All (list_value xs capacity) = (
    omega arith,
    All-append IsFilled (chunks_elements xs) ((b'e' ∷ []) ∷ []) (chunks_elements-All xs)
        (omega arith, tt),
  )
  chunks-All (dict_value fs capacity) = (
    omega arith,
    All-append IsFilled (chunks_fields fs) ((b'e' ∷ []) ∷ []) (chunks_fields-All fs)
        (omega arith, tt),
  )

  chunks_elements-All : (xs : Elements) → All IsFilled (chunks_elements xs)
  chunks_elements-All no_elements = tt
  chunks_elements-All (element v xs) =
      All-append IsFilled (chunks v) (chunks_elements xs) (chunks-All v) (chunks_elements-All xs)

  chunks_fields-All : (fs : Fields) → All IsFilled (chunks_fields fs)
  chunks_fields-All no_fields = tt
  chunks_fields-All (field k v fs) =
      All-append IsFilled (string_chunks k) (chunks v ++ chunks_fields fs) (string_chunks-All k)
        (All-append IsFilled (chunks v) (chunks_fields fs) (chunks-All v) (chunks_fields-All fs))
