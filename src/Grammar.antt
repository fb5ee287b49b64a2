-- ===== src/Grammar.antt =====
-- The format itself, as an independent specification: Bencode values, their canonical encoding,
-- which values the library can represent, how deep they nest, and the events that describe one.
pub mod Laws
pub mod Spelling
use bencode.Prelude.{ℕ, suc, ◌≤◌, max, Bytes, List, [], ◌∷◌, ◌++◌, length}
use bencode.Prelude.Int.{ℤ, IsInt64, size_max}
use bencode.KeyOrder.{Before}
use bencode.Decimal.{decimal, signed}

mutual
  pub data Tree : Type 0 where
    int : ℤ → Tree
    str : Bytes → Tree
    list : Items → Tree
    dict : Entries → Tree

  pub data Items : Type 0 where
    no_items : Items
    item : Tree → Items → Items

  pub data Entries : Type 0 where
    no_entries : Entries
    entry : Bytes → Tree → Entries → Entries

-- <length>:<bytes>
unfoldable pub encode_bytes : Bytes → Bytes
encode_bytes bs = decimal (length bs) ++ (b':' ∷ bs)

unfoldable mutual
  pub encode : Tree → Bytes
  encode (int i) = b'i' ∷ (signed i ++ b'e' ∷ [])
  encode (str bs) = encode_bytes bs
  encode (list xs) = b'l' ∷ encode_items xs
  encode (dict es) = b'd' ∷ encode_entries es

  -- The elements of a list and the byte that closes it.
  pub encode_items : Items → Bytes
  encode_items no_items = b'e' ∷ []
  encode_items (item t xs) = encode t ++ encode_items xs

  -- The entries of a dictionary and the byte that closes it.
  pub encode_entries : Entries → Bytes
  encode_entries no_entries = b'e' ∷ []
  encode_entries (entry k t es) = encode_bytes k ++ (encode t ++ encode_entries es)

abbrev pub IsSized : Bytes → Type 0
IsSized bs = length bs ≤ size_max

-- Every key of the entries stands after `k`.
abbrev pub After : Bytes → Entries → Type 0
After k no_entries = Unit
After k (entry j t es) = Before k j

-- Integers fit `int64_t`, strings fit `size_t`, and keys ascend strictly.
abbrev mutual
  pub IsCanonical : Tree → Type 0
  IsCanonical (int i) = IsInt64 i
  IsCanonical (str bs) = IsSized bs
  IsCanonical (list xs) = IsCanonicalItems xs
  IsCanonical (dict es) = IsCanonicalEntries es

  pub IsCanonicalItems : Items → Type 0
  IsCanonicalItems no_items = Unit
  IsCanonicalItems (item t xs) = IsCanonical t × IsCanonicalItems xs

  pub IsCanonicalEntries : Entries → Type 0
  IsCanonicalEntries no_entries = Unit
  IsCanonicalEntries (entry k t es) = IsSized k × After k es × IsCanonical t × IsCanonicalEntries es

-- The number of containers open at the deepest point; 0 for a leaf.
abbrev mutual
  pub depth : Tree → ℕ
  depth (int i) = 0
  depth (str bs) = 0
  depth (list xs) = suc (depth_items xs)
  depth (dict es) = suc (depth_entries es)

  pub depth_items : Items → ℕ
  depth_items no_items = 0
  depth_items (item t xs) = max (depth t) (depth_items xs)

  pub depth_entries : Entries → ℕ
  depth_entries no_entries = 0
  depth_entries (entry k t es) = max (depth t) (depth_entries es)

-- What a reader of the value sees, in order.
pub data Event : Type 0 where
  on_int : ℤ → Event
  on_string : Bytes → Event
  on_list_begin on_list_end on_dict_begin on_dict_end : Event

unfoldable mutual
  pub events : Tree → List Event
  events (int i) = on_int i ∷ []
  events (str bs) = on_string bs ∷ []
  events (list xs) = on_list_begin ∷ events_items xs
  events (dict es) = on_dict_begin ∷ events_entries es

  pub events_items : Items → List Event
  events_items no_items = on_list_end ∷ []
  events_items (item t xs) = events t ++ events_items xs

  -- A key is reported as a string before its value.
  pub events_entries : Entries → List Event
  events_entries no_entries = on_dict_end ∷ []
  events_entries (entry k t es) = on_string k ∷ (events t ++ events_entries es)

-- The bytes that make up each event.
abbrev pub text : Event → Bytes
text (on_int i) = b'i' ∷ (signed i ++ b'e' ∷ [])
text (on_string bs) = encode_bytes bs
text on_list_begin = b'l' ∷ []
text on_list_end = b'e' ∷ []
text on_dict_begin = b'd' ∷ []
text on_dict_end = b'e' ∷ []

abbrev pub spell : List Event → Bytes
spell [] = []
spell (e ∷ es) = text e ++ spell es
