-- ===== src/Value/Build.antt =====
-- src/value.c: the constructors, bencode_value_free, grow_array and bencode_list_append.
pub mod Growth
pub mod Append
pub mod Nodes
use bencode.Prelude.{
  ℕ, ◌+◌, ◌/◌, Bytes, Bool, true, false, not, ◌||◌, Option, none, some, [], ◌∷◌, ltb, leb, ◌==◌,
  if◌then◌else◌, length,
}
use bencode.Prelude.Int.{ℤ, size_max}
use bencode.Prelude.Word.{mul64}
use bencode.Status.{invalid_arg, nomem}
use bencode.Exec.{Exec, pure, fail, fault, lift, ◌>>=◌, ◌>>◌}
use bencode.Memory.{Memory, Heap, allocator_check, alloc, free, free_if, double_while, growth_fuel}
use bencode.Value.{
  Value, Elements, Fields, int_value, string_value, list_value, dict_value, no_elements, element,
  no_fields, field, count_elements,
}

-- sizeof of `bencode_value`, of a pointer and of `bencode_dict_entry` on a 64-bit platform.
abbrev pub value_size : ℕ
value_size = 40

abbrev pub pointer_size : ℕ
pointer_size = 8

abbrev pub entry_size : ℕ
entry_size = 24

-- The child nodes are freed before the array, and the node last.
unfoldable mutual
  unfolding free free_if

  pub value_free : Value → Exec Memory (Unit {0})
  value_free (int_value i) = free
  value_free (string_value bs owned) = free_if owned >> free
  value_free (list_value xs capacity) = free_elements xs >> (free_if (ltb 0 capacity) >> free)
  value_free (dict_value fs capacity) = free_fields fs >> (free_if (ltb 0 capacity) >> free)

  pub free_elements : Elements → Exec Memory (Unit {0})
  free_elements no_elements = pure tt
  free_elements (element v xs) = value_free v >> free_elements xs

  pub free_fields : Fields → Exec Memory (Unit {0})
  free_fields no_fields = pure tt
  free_fields (field k v fs) = free_if (ltb 0 (length k)) >> (value_free v >> free_fields fs)

-- bencode_value_free, where NULL is ignored.
unfoldable pub free_pointer : Option Value → Exec Memory (Unit {0})
unfolding value_free
free_pointer none = pure tt
free_pointer (some v) = value_free v

-- A write to one cell of an array with that many.
abbrev pub write_cell : ℕ → ℕ → Exec Memory (Unit {0})
write_cell capacity i = if ltb i capacity then pure tt else fault

abbrev pub push_element : Elements → Value → Elements
push_element no_elements child = element child no_elements
push_element (element v xs) child = element v (push_element xs child)

module _ (h : Heap) where
  -- value_alloc, with the node's contents.
  unfoldable pub value_alloc : Value → Exec Memory Value
  unfolding alloc
  value_alloc node = do granted ← alloc h value_size; if granted then pure node else fail nomem

  -- The tests at the head of each constructor: `out` says whether the pointer is not NULL.
  unfoldable pub check_out : Bool → Exec Memory (Unit {0})
  unfolding allocator_check
  check_out out = if not out then fail invalid_arg else lift (allocator_check h)

  unfoldable pub int_new : Bool → ℤ → Exec Memory Value
  unfolding check_out value_alloc
  int_new out i = check_out out >> value_alloc (int_value i)

  -- An empty string points to a literal.
  unfoldable pub string_new : Bool → Option Bytes → ℕ → Exec Memory Value
  unfolding check_out value_alloc free
  string_new out none len =
      if not out || not (len == 0)
      then fail invalid_arg
      else check_out out >> value_alloc (string_value [] false)
  string_new out (some []) len = check_out out >> value_alloc (string_value [] false)
  string_new out (some (c ∷ cs)) len = do
    check_out out
    node ← value_alloc (string_value (c ∷ cs) true)
    granted ← alloc h (length (c ∷ cs))
    if granted then pure node else free >> fail nomem

  -- bencode_string_new_borrowed, which does not check the allocator.
  unfoldable pub string_new_borrowed : Bool → Bytes → Exec Memory Value
  unfolding value_alloc
  string_new_borrowed out bytes =
      if not out then fail invalid_arg else value_alloc (string_value bytes false)

  unfoldable pub list_new : Bool → Exec Memory Value
  unfolding check_out value_alloc
  list_new out = check_out out >> value_alloc (list_value no_elements 0)

  unfoldable pub dict_new : Bool → Exec Memory Value
  unfolding check_out value_alloc
  dict_new out = check_out out >> value_alloc (dict_value no_fields 0)

  -- The new capacity; the array is present exactly if its capacity is not 0.
  unfoldable pub grow_array : ℕ → ℕ → ℕ → Exec Memory ℕ
  unfolding double_while alloc free_if
  grow_array element_size capacity needed = if leb needed capacity then pure capacity else do
    new_cap ← double_while (λ c. ltb c needed) growth_fuel (if capacity == 0 then 4 else capacity)
    if ltb (size_max / element_size) new_cap then fail nomem else do
      granted ← alloc h (mul64 new_cap element_size)
      if not granted then fail nomem else do free_if (ltb 0 capacity); pure new_cap

  -- bencode_list_append: the list after the call. An error leaves it as it was.
  unfoldable pub list_append : Option Value → Option Value → Exec Memory Value
  unfolding grow_array
  list_append (some (list_value xs capacity)) (some child) = do
    new_cap ← grow_array pointer_size capacity (count_elements xs + 1)
    write_cell new_cap (count_elements xs)
    pure (list_value (push_element xs child) new_cap)
  list_append _ _ = fail invalid_arg
