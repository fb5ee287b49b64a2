-- ===== src/Cli/Walk/Census.antt =====
-- The statistics of a value, as a specification: a sum over its nodes, in which the depth is a
-- maximum.
use bencode.Prelude.{ℕ, suc, ◌+◌, ◌≤◌, ◌≡◌, Bytes, max, length, arith}
use bencode.Prelude.Int.{size_max}
use bencode.Grammar.{Tree, Items, Entries, int, str, list, dict, no_items, item, no_entries, entry}
use bencode.Cli.Walk.{
  Stats, no_stats, count_value, count_int, count_string, count_bytes, count_list, count_dict,
}

abbrev pub stats : ℕ → ℕ → ℕ → ℕ → ℕ → ℕ → ℕ → Stats
stats total ints strings lists dicts deepest bytes = record {
  total_values = total;
  ints = ints;
  strings = strings;
  lists = lists;
  dicts = dicts;
  max_depth_seen = deepest;
  total_string_bytes = bytes;
}

infixl 10 ◌⊕◌
abbrev pub ◌⊕◌ : Stats → Stats → Stats
a ⊕ b = record {
  total_values = a.total_values + b.total_values;
  ints = a.ints + b.ints;
  strings = a.strings + b.strings;
  lists = a.lists + b.lists;
  dicts = a.dicts + b.dicts;
  max_depth_seen = max a.max_depth_seen b.max_depth_seen;
  total_string_bytes = a.total_string_bytes + b.total_string_bytes;
}

abbrev pub one_value : ℕ → Stats
one_value level = stats 1 0 0 0 0 level 0

abbrev pub one_int : Stats
one_int = stats 0 1 0 0 0 0 0

abbrev pub one_string : Bytes → Stats
one_string bs = stats 0 0 1 0 0 0 (length bs)

abbrev pub one_list : Stats
one_list = stats 0 0 0 1 0 0 0

abbrev pub one_dict : Stats
one_dict = stats 0 0 0 0 1 0 0

unfoldable mutual
  pub census : ℕ → Tree → Stats
  census level (int i) = one_value level ⊕ one_int
  census level (str bs) = one_value level ⊕ one_string bs
  census level (list xs) = one_value level ⊕ (one_list ⊕ census_items (suc level) xs)
  census level (dict es) = one_value level ⊕ (one_dict ⊕ census_entries (suc level) es)

  pub census_items : ℕ → Items → Stats
  census_items level no_items = no_stats
  census_items level (item t xs) = census level t ⊕ census_items level xs

  -- Keys count as strings, but not as values.
  pub census_entries : ℕ → Entries → Stats
  census_entries level no_entries = no_stats
  census_entries level (entry k t es) = one_string k ⊕ (census level t ⊕ census_entries level es)

-- No counter is beyond the limit.
abbrev pub IsWithin : ℕ → Stats → Type 0
IsWithin limit st =
    (st.total_values ≤ limit)
    × (st.ints ≤ limit)
    × (st.strings ≤ limit)
    × (st.lists ≤ limit)
    × (st.dicts ≤ limit)
    × (st.total_string_bytes ≤ limit)

-- Equality field by field.
record Agrees (a b : Stats) : Type 0 where
  total : a.total_values ≡ b.total_values
  ints : a.ints ≡ b.ints
  strings : a.strings ≡ b.strings
  lists : a.lists ≡ b.lists
  dicts : a.dicts ≡ b.dicts
  deepest : a.max_depth_seen ≡ b.max_depth_seen
  bytes : a.total_string_bytes ≡ b.total_string_bytes

Agrees-eq : {a b : Stats} → Agrees a b → a ≡ b
Agrees-eq e = λ i. record {
  total_values = e.total i;
  ints = e.ints i;
  strings = e.strings i;
  lists = e.lists i;
  dicts = e.dicts i;
  max_depth_seen = e.deepest i;
  total_string_bytes = e.bytes i;
}

pub ⊕_assoc : (a b c : Stats) → a ⊕ b ⊕ c ≡ a ⊕ (b ⊕ c)
⊕_assoc a b c = Agrees-eq (omega arith)

pub ⊕_nothing : (a : Stats) → a ⊕ no_stats ≡ a
⊕_nothing a = Agrees-eq (omega arith)

pub nothing_⊕ : (a : Stats) → no_stats ⊕ a ≡ a
nothing_⊕ a = Agrees-eq (omega arith)

pub IsWithin-left : (a b : Stats) → IsWithin size_max (a ⊕ b) → IsWithin size_max a
IsWithin-left a b small = omega (arith, small)

module _ (st : Stats) where
  pub count_value-adds :
      (level : ℕ)
      → IsWithin size_max (st ⊕ one_value level)
      → count_value level st ≡ st ⊕ one_value level
  count_value-adds level small = Agrees-eq (ground arith)

  pub count_int-adds : IsWithin size_max (st ⊕ one_int) → count_int st ≡ st ⊕ one_int
  count_int-adds small = Agrees-eq (omega arith)

  pub count_string-adds :
      (bs : Bytes)
      → IsWithin size_max (st ⊕ one_string bs)
      → count_bytes (length bs) (count_string st) ≡ st ⊕ one_string bs
  count_string-adds bs small = Agrees-eq (omega arith)

  pub count_list-adds : IsWithin size_max (st ⊕ one_list) → count_list st ≡ st ⊕ one_list
  count_list-adds small = Agrees-eq (omega arith)

  pub count_dict-adds : IsWithin size_max (st ⊕ one_dict) → count_dict st ≡ st ⊕ one_dict
  count_dict-adds small = Agrees-eq (omega arith)
