-- ===== src/Grammar/Laws.antt =====
-- First bytes and lengths of encodings.
use bencode.Prelude.{ℕ, ◌<◌, ◌≡◌, ◌≢◌, refl, ap, Bytes, ◌∷◌, ◌++◌, length, arith}
use bencode.Decimal.{IsDigit}
use bencode.Decimal.Laws.{decimal-IsNumeral}
use bencode.Grammar.{Tree, int, str, list, dict, encode, encode_bytes}

-- A string begins with a digit.
pub encode_bytes_shape :
    (bs : Bytes) → (c : ℕ) × (cs : Bytes) × IsDigit c × (encode_bytes bs ≡ c ∷ cs)
unfolding encode_bytes
encode_bytes_shape bs =
    let w = decimal-IsNumeral (length bs) in
    (w.first, w.others ++ (b':' ∷ bs), w.first_digit, rw w.shape)

pub length-encode_bytes_pos : (bs : Bytes) → 0 < length (encode_bytes bs)
length-encode_bytes_pos bs = let (c, cs, _, e) = encode_bytes_shape bs in omega (arith, ap length e)

pub length-encode_pos : (t : Tree) → 0 < length (encode t)
unfolding encode
length-encode_pos (int i) = omega arith
length-encode_pos (str bs) = length-encode_bytes_pos bs
length-encode_pos (list xs) = omega arith
length-encode_pos (dict es) = omega arith

-- No value begins with the byte that closes a container.
pub encode_shape : (t : Tree) → (c : ℕ) × (cs : Bytes) × (c ≢ b'e') × (encode t ≡ c ∷ cs)
unfolding encode
encode_shape (int i) = (_, _, omega arith, refl)
encode_shape (str bs) = let (c, cs, digit, e) = encode_bytes_shape bs in (c, cs, omega arith, e)
encode_shape (list xs) = (_, _, omega arith, refl)
encode_shape (dict es) = (_, _, omega arith, refl)
