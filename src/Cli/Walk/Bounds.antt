-- ===== src/Cli/Walk/Bounds.antt =====
-- No counter of a census passes the length of the value's encoding.
use bencode.Prelude.{ℕ, suc, ◌+◌, ◌≤◌, Bytes, ◌∷◌, [], ◌++◌, length, length-append_bytes, arith}
use bencode.Decimal.{decimal, signed}
use bencode.Grammar.{
  Tree, Items, Entries, int, str, list, dict, no_items, item, no_entries, entry, encode,
  encode_items, encode_entries, encode_bytes,
}
use bencode.Cli.Walk.{Stats}
use bencode.Cli.Walk.Census.{◌⊕◌, census, census_items, census_entries, IsWithin, one_string}

pub IsWithin-mono : {n k : ℕ} (st : Stats) → n ≤ k → IsWithin n st → IsWithin k st
IsWithin-mono st h small = omega (arith, h, small)

IsWithin-⊕ :
    {n k l : ℕ} (a b : Stats) → n + k ≤ l → IsWithin n a → IsWithin k b → IsWithin l (a ⊕ b)
IsWithin-⊕ a b h small little = omega (arith, h, small, little)

length-encode_bytes : (bs : Bytes) → suc (length bs) ≤ length (encode_bytes bs)
unfolding encode_bytes
length-encode_bytes bs = omega (arith, length-append_bytes (decimal (length bs)) (b':' ∷ bs))

mutual
  unfolding census encode

  pub census-IsWithin : (level : ℕ) (t : Tree) → IsWithin (length (encode t)) (census level t)
  census-IsWithin level (int i) = omega (arith, length-append_bytes (signed i) (b'e' ∷ []))
  census-IsWithin level (str bs) = omega (arith, length-encode_bytes bs)
  census-IsWithin level (list xs) = omega (arith, items-IsWithin (suc level) xs)
  census-IsWithin level (dict es) = omega (arith, entries-IsWithin (suc level) es)

  items-IsWithin :
      (level : ℕ) (xs : Items) → IsWithin (length (encode_items xs)) (census_items level xs)
  items-IsWithin level no_items = omega arith
  items-IsWithin level (item t xs) =
      IsWithin-⊕ (census level t) (census_items level xs)
        (omega (arith, length-append_bytes (encode t) (encode_items xs))) (census-IsWithin level t)
        (items-IsWithin level xs)

  entries-IsWithin :
      (level : ℕ) (es : Entries) → IsWithin (length (encode_entries es)) (census_entries level es)
  entries-IsWithin level no_entries = omega arith
  entries-IsWithin level (entry k t es) =
      IsWithin-⊕ {n = suc (length k)} {k = length (encode t) + length (encode_entries es)}
        (one_string k) (census level t ⊕ census_entries level es)
        (omega (
          arith,
          length-encode_bytes k,
          length-append_bytes (encode_bytes k) (encode t ++ encode_entries es),
          length-append_bytes (encode t) (encode_entries es),
        ))
        (omega arith)
        (IsWithin-⊕ (census level t) (census_entries level es) (omega arith)
          (census-IsWithin level t) (entries-IsWithin level es))
