-- ===== src/Value/Dict.antt =====
-- src/value.c: dict_search and bencode_dict_set.
pub mod Search
pub mod Edits
pub mod Set
use Prim.Native.Nat.{Ordering}
use bencode.Prelude.{
  ℕ, zero, suc, ◌+◌, ◌/◌, Bytes, Bool, true, false, Option, none, some, [], ltb, ◌==◌,
  if◌then◌else◌, length,
}
use bencode.Prelude.Word.{add64, sub64}
use bencode.Status.{invalid_arg, nomem}
use bencode.KeyOrder.{memcmp, by_length}
use bencode.Exec.{Run, Exec, pure, fail, fault, out_of_fuel, or_else, ◌>>=◌, ◌>>◌}
use bencode.Memory.{Memory, Heap, alloc, free_if}
use bencode.Value.{Value, Fields, dict_value, no_fields, field, count_fields}
use bencode.Value.Build.{value_free, write_cell, grow_array, entry_size}

abbrev pub key_at : Fields → ℕ → Option Bytes
key_at no_fields i = none
key_at (field k v fs) zero = some k
key_at (field k v fs) (suc i) = key_at fs i

abbrev pub value_at : Fields → ℕ → Option Value
value_at no_fields i = none
value_at (field k v fs) zero = some v
value_at (field k v fs) (suc i) = value_at fs i

-- The comparison in the loop of dict_search, of an entry's key with the key sought.
unfoldable pub entry_cmp : Bytes → Bytes → Ordering
unfolding memcmp
entry_cmp entry_key key =
    let n = if ltb (length entry_key) (length key) then length entry_key else length key in
    let c = if n == 0 then Ordering.eq else memcmp n entry_key key in
    by_length c (length entry_key) (length key)

-- `*out_index` and `*out_match`.
pub record Place : Type 0 where
  pub index : ℕ
  pub matches : Bool

abbrev pub compare_at : Option Bytes → Bytes → Option Ordering
compare_at none key = none
compare_at (some entry_key) key = some (entry_cmp entry_key key)

-- The three cases of a comparison; a read behind the last entry is out of bounds.
abbrev pub round_at : Option Ordering → ℕ → (right left : Run Memory Place) → Exec Memory Place
round_at none mid right left = fault
round_at (some Ordering.eq) mid right left = pure (record { index = mid; matches = true })
round_at (some Ordering.lt) mid right left = λ _. right
round_at (some Ordering.gt) mid right left = λ _. left

-- The loop on [lo, hi).
unfoldable pub search_loop : ℕ → Fields → Bytes → ℕ → ℕ → Exec Memory Place
unfolding entry_cmp
search_loop zero fs key lo hi m = out_of_fuel
search_loop (suc f) fs key lo hi m =
    let mid = add64 lo (sub64 hi lo / 2) in
    let right = search_loop f fs key (add64 mid 1) hi m in
    let left = search_loop f fs key lo mid m in
    if ltb lo hi
    then round_at (compare_at (key_at fs mid) key) mid right left m
    else pure (record { index = lo; matches = false }) m

unfoldable pub dict_search : Fields → Bytes → Exec Memory Place
unfolding search_loop
dict_search fs key = search_loop (suc (count_fields fs)) fs key 0 (count_fields fs)

-- `memmove` of the entries above and the write of the new one.
abbrev pub insert_at : ℕ → Bytes → Value → Fields → Fields
insert_at zero key child fs = field key child fs
insert_at (suc i) key child no_fields = field key child no_fields
insert_at (suc i) key child (field k v fs) = field k v (insert_at i key child fs)

abbrev pub replace_at : ℕ → Value → Fields → Fields
replace_at i child no_fields = no_fields
replace_at zero child (field k v fs) = field k child fs
replace_at (suc i) child (field k v fs) = field k v (replace_at i child fs)

abbrev free_found : Option Value → Exec Memory (Unit {0})
free_found none = fault
free_found (some v) = value_free v

module _ (h : Heap) where
  unfoldable pub replace_value : Fields → ℕ → ℕ → Value → Exec Memory Value
  unfolding value_free
  replace_value fs capacity i child =
      free_found (value_at fs i) >> pure (dict_value (replace_at i child fs) capacity)

  -- `if (key_len > 0) { key_copy = bencode_alloc(...); if NULL return NOMEM; }`
  unfoldable pub copy_key : Bytes → Exec Memory (Unit {0})
  unfolding alloc
  copy_key key =
      if ltb 0 (length key)
      then (alloc h (length key) >>= λ granted. if granted then pure tt else fail nomem)
      else pure tt

  unfoldable pub insert_value : Fields → ℕ → ℕ → Bytes → Value → Exec Memory Value
  unfolding copy_key free_if grow_array
  insert_value fs capacity i key child = do
    copy_key key
    new_cap ←
        or_else (grow_array h entry_size capacity (count_fields fs + 1))
          (free_if (ltb 0 (length key)))
    write_cell new_cap (count_fields fs)
    pure (dict_value (insert_at i key child fs) new_cap)

  unfoldable pub set_at : Fields → ℕ → Bytes → Value → Place → Exec Memory Value
  unfolding replace_value insert_value
  set_at fs capacity key child place =
      if place.matches
      then replace_value fs capacity place.index child
      else insert_value fs capacity place.index key child

  -- bencode_dict_set: the dictionary after the call. `none` with a length is a NULL key.
  unfoldable pub dict_set : Option Value → Option Bytes → ℕ → Option Value → Exec Memory Value
  unfolding dict_search set_at
  dict_set (some (dict_value fs capacity)) (some key) key_len (some child) =
      dict_search fs key >>= set_at fs capacity key child
  dict_set (some (dict_value fs capacity)) none key_len (some child) =
      if key_len == 0 then dict_search fs [] >>= set_at fs capacity [] child else fail invalid_arg
  dict_set _ _ _ _ = fail invalid_arg
