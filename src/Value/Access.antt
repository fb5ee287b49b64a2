-- ===== src/Value/Access.antt =====
-- src/value.c: the accessors. A result pointer is a flag that says whether it is not NULL.
pub mod Get
pub mod Rounds
pub mod Types
use bencode.Prelude.{
  ℕ, zero, suc, Bytes, Bool, true, false, not, ◌&&◌, Option, none, some, [], ◌==◌, ltb,
  if◌then◌else◌,
}
use bencode.Prelude.Int.{ℤ}
use bencode.Status.{Result, ok, err, invalid_arg}
use bencode.Exec.{Exec, pure, fail, fault, ◌>>=◌}
use bencode.Memory.{Memory}
use bencode.Value.{
  Value, ValueType, type_of, Elements, Fields, int_value, string_value, list_value, dict_value,
  no_elements, element, count_elements, count_fields,
}
use bencode.Value.Dict.{Place, dict_search, key_at, value_at}

-- bencode_value_type
abbrev pub value_type : Option Value → ValueType
value_type none = ValueType.invalid
value_type (some v) = type_of v

-- bencode_value_int
unfoldable pub value_int : Option Value → Bool → Result ℤ
value_int (some (int_value i)) out = if not out then err invalid_arg else ok i
value_int _ out = err invalid_arg

-- bencode_value_string: the flags are those of `out_bytes` and of `out_len`.
unfoldable pub value_string : Option Value → Bool → Bool → Result Bytes
value_string (some (string_value bs owned)) out_bytes out_len =
    if not (out_bytes && out_len) then err invalid_arg else ok bs
value_string _ out_bytes out_len = err invalid_arg

unfoldable pub list_size : Option Value → ℕ
list_size (some (list_value xs capacity)) = count_elements xs
list_size _ = 0

-- A read of an array cell that holds no element is out of bounds.
abbrev element_at : Elements → ℕ → Exec Memory Value
element_at no_elements i = fault
element_at (element v xs) zero = pure v
element_at (element v xs) (suc i) = element_at xs i

unfoldable pub list_at : Option Value → ℕ → Exec Memory (Option Value)
list_at (some (list_value xs capacity)) index =
    if not (ltb index (count_elements xs))
    then pure none
    else (element_at xs index >>= λ v. pure (some v))
list_at _ index = pure none

unfoldable pub dict_size : Option Value → ℕ
dict_size (some (dict_value fs capacity)) = count_fields fs
dict_size _ = 0

abbrev read_value : Option Value → Exec Memory (Option Value)
read_value none = fault
read_value (some v) = pure (some v)

abbrev pub read_place : Fields → Place → Exec Memory (Option Value)
read_place fs place = if not place.matches then pure none else read_value (value_at fs place.index)

-- bencode_dict_get; `none` with a length is a NULL key.
unfoldable pub dict_get : Option Value → Option Bytes → ℕ → Exec Memory (Option Value)
unfolding dict_search
dict_get (some (dict_value fs capacity)) (some key) key_len = dict_search fs key >>= read_place fs
dict_get (some (dict_value fs capacity)) none key_len =
    if key_len == 0 then dict_search fs [] >>= read_place fs else pure none
dict_get _ key key_len = pure none

abbrev read_entry : Option Bytes → Option Value → Exec Memory (Bytes × Value)
read_entry (some k) (some v) = pure (k, v)
read_entry _ _ = fault

-- bencode_dict_at, with all three results.
unfoldable pub dict_at : Option Value → ℕ → Exec Memory (Bytes × Value)
dict_at (some (dict_value fs capacity)) index =
    if not (ltb index (count_fields fs))
    then fail invalid_arg
    else read_entry (key_at fs index) (value_at fs index)
dict_at _ index = fail invalid_arg
