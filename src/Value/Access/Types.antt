-- ===== src/Value/Access/Types.antt =====
-- The accessors read exactly the value that a tree represents, and each value answers those of its
-- own type only.
use bencode.Prelude.{
  ℕ, zero, suc, ◌<◌, ◌≤◌, ◌≡◌, refl, Bytes, true, Option, none, some, ltb→lt, ltb→le, ltb,
  Bool-cases, inl, inr, arith,
}
use bencode.Status.{ok, err, invalid_arg}
use bencode.Exec.{Run, pure, fail}
use bencode.Memory.{Memory}
use bencode.Grammar.{Tree, Items, Entries, int, str, list, dict, no_items, item, no_entries, entry}
use bencode.Value.{
  Value, ValueType, Elements, Fields, int_value, string_value, list_value, dict_value, no_elements,
  element, no_fields, field, count_elements, count_fields, view, view_elements, view_fields,
}
use bencode.Value.Dict.{key_at, value_at}
use bencode.Value.Access.{
  value_type, value_int, value_string, list_size, list_at, dict_size, dict_at, dict_get, element_at,
  read_entry,
}

abbrev pub count_items : Items → ℕ
count_items no_items = 0
count_items (item t xs) = suc (count_items xs)

abbrev pub nth_item : Items → ℕ → Option Tree
nth_item no_items i = none
nth_item (item t xs) zero = some t
nth_item (item t xs) (suc i) = nth_item xs i

abbrev pub count_entries : Entries → ℕ
count_entries no_entries = 0
count_entries (entry k t es) = suc (count_entries es)

abbrev pub nth_entry : Entries → ℕ → Option (Bytes × Tree)
nth_entry no_entries i = none
nth_entry (entry k t es) zero = some (k, t)
nth_entry (entry k t es) (suc i) = nth_entry es i

module _ (m : Memory) where
  -- The child that is asked for, or NULL.
  abbrev pub GivesItem : Option Tree → Run Memory (Option Value) → Type 0
  GivesItem none r = r ≡ pure none m
  GivesItem (some t) r = (v : Value) × (view v ≡ t) × (r ≡ pure (some v) m)

  -- The entry that is asked for, or BENCODE_ERR_INVALID_ARG.
  abbrev pub GivesEntry : Option (Bytes × Tree) → Run Memory (Bytes × Value) → Type 0
  GivesEntry none r = r ≡ fail invalid_arg m
  GivesEntry (some (k, t)) r = (v : Value) × (view v ≡ t) × (r ≡ pure (k, v) m)

module _ (o : Option Value) (m : Memory) where
  abbrev pub NoInt : Type 0
  NoInt = value_int o true ≡ err invalid_arg

  abbrev pub NoString : Type 0
  NoString = value_string o true true ≡ err invalid_arg

  abbrev pub NoList : Type 0
  NoList = (list_size o ≡ 0) × ((i : ℕ) → list_at o i m ≡ pure none m)

  abbrev pub NoDict : Type 0
  NoDict =
      (dict_size o ≡ 0)
      × ((i : ℕ) → dict_at o i m ≡ fail invalid_arg m)
      × ((key : Option Bytes) (key_len : ℕ) → dict_get o key key_len m ≡ pure none m)

  abbrev pub Lists : Items → Type 0
  Lists xs =
      (list_size o ≡ count_items xs) × ((i : ℕ) → GivesItem m (nth_item xs i) (list_at o i m))

  abbrev pub Maps : Entries → Type 0
  Maps es =
      (dict_size o ≡ count_entries es) × ((i : ℕ) → GivesEntry m (nth_entry es i) (dict_at o i m))

  -- What the accessors say of a pointer, for the value that stands there, or none.
  abbrev pub Reads : Option Tree → Type 0
  Reads none = (value_type o ≡ ValueType.invalid) × NoInt × NoString × NoList × NoDict
  Reads (some (int i)) =
      (value_type o ≡ ValueType.int_type) × (value_int o true ≡ ok i) × NoString × NoList × NoDict
  Reads (some (str bs)) =
      (value_type o ≡ ValueType.string_type)
      × NoInt
      × (value_string o true true ≡ ok bs)
      × NoList
      × NoDict
  Reads (some (list xs)) =
      (value_type o ≡ ValueType.list_type) × NoInt × NoString × Lists xs × NoDict
  Reads (some (dict es)) =
      (value_type o ≡ ValueType.dict_type) × NoInt × NoString × NoList × Maps es

element_inside :
    (xs : Elements) (i : ℕ) (m : Memory)
    → i < count_elements xs
    → (v : Value) × (nth_item (view_elements xs) i ≡ some (view v)) × (element_at xs i m ≡ pure v m)
unfolding view
element_inside no_elements i m h = absurd (omega (arith, h))
element_inside (element v xs) zero m h = (v, refl, refl)
element_inside (element v xs) (suc i) m h = element_inside xs i m (omega (arith, h))

element_outside :
    (xs : Elements) (i : ℕ) → count_elements xs ≤ i → nth_item (view_elements xs) i ≡ none
unfolding view
element_outside no_elements i h = refl
element_outside (element v xs) zero h = absurd (omega (arith, h))
element_outside (element v xs) (suc i) h = element_outside xs i (omega (arith, h))

field_inside :
    (fs : Fields) (i : ℕ) (m : Memory)
    → i < count_fields fs
    → (k : Bytes) × (v : Value) × (nth_entry (view_fields fs) i ≡ some (k, view v))
      × (read_entry (key_at fs i) (value_at fs i) m ≡ pure (k, v) m)
unfolding view
field_inside no_fields i m h = absurd (omega (arith, h))
field_inside (field k v fs) zero m h = (k, v, refl, refl)
field_inside (field k v fs) (suc i) m h = field_inside fs i m (omega (arith, h))

field_outside : (fs : Fields) (i : ℕ) → count_fields fs ≤ i → nth_entry (view_fields fs) i ≡ none
unfolding view
field_outside no_fields i h = refl
field_outside (field k v fs) zero h = absurd (omega (arith, h))
field_outside (field k v fs) (suc i) h = field_outside fs i (omega (arith, h))

count-view_elements : (xs : Elements) → count_elements xs ≡ count_items (view_elements xs)
unfolding view
count-view_elements no_elements = refl
count-view_elements (element v xs) = rw (count-view_elements xs) refl

count-view_fields : (fs : Fields) → count_fields fs ≡ count_entries (view_fields fs)
unfolding view
count-view_fields no_fields = refl
count-view_fields (field k v fs) = rw (count-view_fields fs) refl

item_given :
    (xs : Elements) (capacity i : ℕ) (m : Memory)
    → GivesItem m (nth_item (view_elements xs) i) (list_at (some (list_value xs capacity)) i m)
unfolding list_at
item_given xs capacity i m = elim (Bool-cases (ltb i (count_elements xs))) [
  | inl inside ↦
      let (v, stands, e) = element_inside xs i m (ltb→lt i (count_elements xs) inside) in
      rw (inside, stands, e) (v, refl, refl)
  | inr outside ↦ rw (outside, element_outside xs i (ltb→le i (count_elements xs) outside)) refl
]

entry_given :
    (fs : Fields) (capacity i : ℕ) (m : Memory)
    → GivesEntry m (nth_entry (view_fields fs) i) (dict_at (some (dict_value fs capacity)) i m)
unfolding dict_at
entry_given fs capacity i m = elim (Bool-cases (ltb i (count_fields fs))) [
  | inl inside ↦
      let (k, v, stands, e) = field_inside fs i m (ltb→lt i (count_fields fs) inside) in
      rw (inside, stands, e) (v, refl, refl)
  | inr outside ↦ rw (outside, field_outside fs i (ltb→le i (count_fields fs) outside)) refl
]

abbrev pub view_of : Option Value → Option Tree
view_of none = none
view_of (some v) = some (view v)

-- The accessors agree with the value that a tree represents: bencode_value_type tells its type,
-- bencode_value_int and bencode_value_string return its integer or its bytes, the sizes are those of
-- the list or the dictionary, and bencode_list_at and bencode_dict_at return a node for the value
-- at each index, with its key, and NULL or BENCODE_ERR_INVALID_ARG for any other index. The
-- accessors of another type, and all accessors on NULL, bencode_dict_get among them, report
-- BENCODE_ERR_INVALID_ARG, 0 or NULL. None reads outside an array or changes the heap.
pub value_type-Reads : (o : Option Value) (m : Memory) → Reads o m (view_of o)
unfolding value_int value_string list_size list_at dict_size dict_at dict_get view
value_type-Reads none m = (refl, refl, refl, (refl, λ i. refl), (refl, λ i. refl, λ key n. refl))
value_type-Reads (some (int_value i)) m =
    (refl, refl, refl, (refl, λ i. refl), (refl, λ i. refl, λ key n. refl))
value_type-Reads (some (string_value bs owned)) m =
    (refl, refl, refl, (refl, λ i. refl), (refl, λ i. refl, λ key n. refl))
value_type-Reads (some (list_value xs capacity)) m = (
  refl,
  refl,
  refl,
  (count-view_elements xs, λ i. item_given xs capacity i m),
  (refl, λ i. refl, λ key n. refl),
)
value_type-Reads (some (dict_value fs capacity)) m =
    (refl, refl, refl, (refl, λ i. refl), (count-view_fields fs, λ i. entry_given fs capacity i m))
