-- ===== src/Dom.antt =====
-- src/parse_dom.c: the callbacks that build a tree, and bencode_parse. All containers stand in the
-- tree of `root`, so a pointer to one is its position there, the outermost index first. Positions
-- stay valid, because entries move only in the innermost open container, and nothing that is open
-- stands in that one.
pub mod Callbacks
pub mod Contexts
pub mod Change
pub mod Attach
pub mod Leaves
pub mod Opens
pub mod Leads
pub mod Fills
pub mod Builds
pub mod Truncated
pub mod Entry
pub mod Sound
pub mod Roundtrip
mod Tests
use bencode.Prelude.{
  ℕ, zero, suc, ◌-◌, Bytes, Bool, true, false, not, ◌&&◌, Option, none, some, List, [], ◌∷◌, ◌++◌,
  leb, ◌==◌, if◌then◌else◌, length,
}
use bencode.Prelude.Int.{ℤ}
use bencode.Status.{
  Error, Status, Result, ok, err, invalid_arg, nesting_too_deep, unexpected_byte, user_aborted,
}
use bencode.Exec.{
  Run, returned, out_of_bounds, out_of_fuel, Exec, pure, fail, fault, lift, or_else, ◌>>=◌, ◌>>◌,
}
use bencode.Memory.{Memory, Heap, allocator_check}
use bencode.Value.{
  Value, Elements, Fields, int_value, string_value, list_value, dict_value, no_elements, element,
  no_fields, field, count_elements,
}
use bencode.Value.Build.{
  value_free, free_pointer, int_new, string_new_borrowed, list_new, dict_new, list_append,
}
use bencode.Value.Dict.{dict_search, dict_set, Place}
use bencode.Sax.Parse.{Buffer, null, bytes, size, parse_sax}

abbrev pub Position : Type 0
Position = List ℕ

abbrev pub nth_element : Elements → ℕ → Option Value
nth_element no_elements i = none
nth_element (element v xs) zero = some v
nth_element (element v xs) (suc i) = nth_element xs i

abbrev pub nth_field : Fields → ℕ → Option Value
nth_field no_fields i = none
nth_field (field k v fs) zero = some v
nth_field (field k v fs) (suc i) = nth_field fs i

abbrev pub child_at : ℕ → Value → Option Value
child_at i (list_value xs capacity) = nth_element xs i
child_at i (dict_value fs capacity) = nth_field fs i
child_at i v = none

-- The value that a pointer points to.
abbrev pub follow : Position → Option Value → Option Value
follow p none = none
follow [] (some v) = some v
follow (i ∷ p) (some v) = follow p (child_at i v)

-- A call that changes the value at one place: the element, the entry, the value at a position.
abbrev pub update_element : ℕ → (Value → Exec Memory Value) → Elements → Exec Memory Elements
update_element i f no_elements = fault
update_element zero f (element v xs) = f v >>= λ w. pure (element w xs)
update_element (suc i) f (element v xs) = update_element i f xs >>= λ ys. pure (element v ys)

abbrev pub update_field : ℕ → (Value → Exec Memory Value) → Fields → Exec Memory Fields
update_field i f no_fields = fault
update_field zero f (field k v fs) = f v >>= λ w. pure (field k w fs)
update_field (suc i) f (field k v fs) = update_field i f fs >>= λ gs. pure (field k v gs)

abbrev pub update_at : Position → (Value → Exec Memory Value) → Value → Exec Memory Value
update_at [] f v = f v
update_at (i ∷ p) f (list_value xs capacity) =
    update_element i (update_at p f) xs >>= λ ys. pure (list_value ys capacity)
update_at (i ∷ p) f (dict_value fs capacity) =
    update_field i (update_at p f) fs >>= λ gs. pure (dict_value gs capacity)
update_at (i ∷ p) f v = fault

-- `pending_key` is NULL until a key arrives; `pending_key_len` is its length.
pub record DomFrame : Type 0 where
  pub container : Position
  pub expecting_key : Bool
  pub pending_key : Option Bytes

-- `frames` holds frames[depth - 1], ..., frames[0]. The memory is carried along.
pub record DomState : Type 0 where
  pub root : Option Value
  pub frames : List DomFrame
  pub memory : Memory

-- The size of the array `frames`, which is also `depth_cap`.
abbrev pub depth_cap : ℕ
depth_cap = 257

abbrev rewrap : {A : Type 0} → DomState → Run Memory A → Run DomState A
rewrap s (returned r m) = returned r (record s { memory = m })
rewrap s out_of_bounds = out_of_bounds
rewrap s out_of_fuel = out_of_fuel

abbrev pub on_memory : {A : Type 0} → Exec Memory A → Exec DomState A
on_memory action s = rewrap s (action s.memory)

abbrev pub set_root : Value → Exec DomState (Unit {0})
set_root v s = pure tt (record s { root = some v })

abbrev update_root :
    Option Value → Position → (Value → Exec Memory Value) → Exec DomState (Unit {0})
update_root none p f = fault
update_root (some r) p f = on_memory (update_at p f r) >>= set_root

-- A call that changes what the pointer points to; an error leaves it as it was.
abbrev pub change : Position → (Value → Exec Memory Value) → Exec DomState (Unit {0})
change p f s = update_root s.root p f s

-- `f->pending_key = NULL; f->pending_key_len = 0; f->expecting_key = 1;`, whatever the status.
abbrev reset : List DomFrame → List DomFrame
reset [] = []
reset (f ∷ fs) = record f { pending_key = none; expecting_key = true } ∷ fs

abbrev pub reset_frame : Exec DomState (Unit {0})
reset_frame s = pure tt (record s { frames = reset s.frames })

abbrev pub key_length : Option Bytes → ℕ
key_length none = 0
key_length (some k) = length k

abbrev pub key_bytes : Option Bytes → Bytes
key_bytes none = []
key_bytes (some k) = k
