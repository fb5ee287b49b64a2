-- ===== src/Value.antt =====
-- src/value.c and src/bencode_internal.h: the value tree in memory. A tree owns its nodes, the
-- bytes marked as owned, the keys and the arrays, so it is modelled as a value; the `alloc`
-- pointer of each node is the one `Heap` of all operations.
pub mod Access
pub mod Build
pub mod Dict
pub mod Clone
pub mod Free
pub mod Last
pub mod Map
pub mod Reach
pub mod Tests
use bencode.Prelude.{ℕ, suc, ◌+◌, Bytes, Bool, true, false, [], ◌∷◌, ltb, if◌then◌else◌, length}
use bencode.Prelude.Int.{ℤ}
use bencode.Memory.{block}
use bencode.Grammar.{Tree, Items, Entries, int, str, list, dict, no_items, item, no_entries, entry}

-- `struct bencode_value`: the flag is `owned`, the number is `capacity`; `count` is the length.
mutual
  pub data Value : Type 0 where
    int_value : ℤ → Value
    string_value : Bytes → Bool → Value
    list_value : Elements → ℕ → Value
    dict_value : Fields → ℕ → Value

  pub data Elements : Type 0 where
    no_elements : Elements
    element : Value → Elements → Elements

  -- `bencode_dict_entry`
  pub data Fields : Type 0 where
    no_fields : Fields
    field : Bytes → Value → Fields → Fields

-- bencode_type; BENCODE_INVALID is the type of NULL.
pub data ValueType : Type 0 where
  invalid int_type string_type list_type dict_type : ValueType

abbrev pub type_of : Value → ValueType
type_of (int_value i) = int_type
type_of (string_value bs owned) = string_type
type_of (list_value xs capacity) = list_type
type_of (dict_value fs capacity) = dict_type

abbrev pub count_elements : Elements → ℕ
count_elements no_elements = 0
count_elements (element v xs) = suc (count_elements xs)

abbrev pub count_fields : Fields → ℕ
count_fields no_fields = 0
count_fields (field k v fs) = suc (count_fields fs)

-- The value of the format that a tree represents.
unfoldable mutual
  pub view : Value → Tree
  view (int_value i) = int i
  view (string_value bs owned) = str bs
  view (list_value xs capacity) = list (view_elements xs)
  view (dict_value fs capacity) = dict (view_fields fs)

  pub view_elements : Elements → Items
  view_elements no_elements = no_items
  view_elements (element v xs) = item (view v) (view_elements xs)

  pub view_fields : Fields → Entries
  view_fields no_fields = no_entries
  view_fields (field k v fs) = entry k (view v) (view_fields fs)

-- The blocks that a tree owns.
unfoldable mutual
  pub blocks : Value → ℕ
  blocks (int_value i) = 1
  blocks (string_value bs owned) = suc (if owned then 1 else 0)
  blocks (list_value xs capacity) = suc (blocks_elements xs + block capacity)
  blocks (dict_value fs capacity) = suc (blocks_fields fs + block capacity)

  pub blocks_elements : Elements → ℕ
  blocks_elements no_elements = 0
  blocks_elements (element v xs) = blocks v + blocks_elements xs

  pub blocks_fields : Fields → ℕ
  blocks_fields no_fields = 0
  blocks_fields (field k v fs) = block (length k) + (blocks v + blocks_fields fs)
