-- ===== src/Value/Clone.antt =====
-- src/value.c: bencode_value_clone. Each call, the recursive ones included, checks the allocator.
pub mod Detached
pub mod Parts
pub mod Exact
use bencode.Prelude.{Bool, true, not, Option, none, some, if◌then◌else◌, length}
use bencode.Status.{invalid_arg}
use bencode.Exec.{Exec, pure, fail, or_else, ◌>>=◌, ◌>>◌}
use bencode.Memory.{Memory, Heap}
use bencode.Value.{
  Value, Elements, Fields, int_value, string_value, list_value, dict_value, no_elements, element,
  no_fields, field,
}
use bencode.Value.Build.{
  value_free, check_out, int_new, string_new, list_new, dict_new, list_append,
}
use bencode.Value.Dict.{dict_set}

module _ (h : Heap) where
  -- What was cloned so far is freed where a later step fails.
  unfoldable mutual
    unfolding check_out int_new string_new list_new dict_new list_append dict_set value_free

    pub clone_value : Value → Exec Memory Value
    clone_value (int_value i) = check_out h true >> int_new h true i
    clone_value (string_value bs owned) =
        check_out h true >> string_new h true (some bs) (length bs)
    clone_value (list_value xs capacity) =
        check_out h true >> (list_new h true >>= clone_elements xs)
    clone_value (dict_value fs capacity) = check_out h true >> (dict_new h true >>= clone_fields fs)

    -- The loop of the list case, on the list built so far.
    pub clone_elements : Elements → Value → Exec Memory Value
    clone_elements no_elements list = pure list
    clone_elements (element v xs) list = or_else (clone_value v) (value_free list) >>= λ child.
        or_else (list_append h (some list) (some child)) (value_free child >> value_free list)
        >>= clone_elements xs

    -- The loop of the dictionary case.
    pub clone_fields : Fields → Value → Exec Memory Value
    clone_fields no_fields dict = pure dict
    clone_fields (field k v fs) dict = or_else (clone_value v) (value_free dict) >>= λ child.
        or_else (dict_set h (some dict) (some k) (length k) (some child))
          (value_free child >> value_free dict)
        >>= clone_fields fs

  -- bencode_value_clone: NULL is cloned to NULL.
  unfoldable pub clone : Bool → Option Value → Exec Memory (Option Value)
  unfolding clone_value
  clone out none = check_out h out >> pure none
  clone out (some v) = if not out then fail invalid_arg else (clone_value v >>= λ w. pure (some w))
