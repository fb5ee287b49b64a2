-- ===== src/Value/Clone/Detached.antt =====
-- Trees that borrow nothing.
use bencode.Prelude.{◌≡◌, ◌⊎◌, Bytes, true, []}
use bencode.Value.{
  Value, Elements, Fields, int_value, string_value, list_value, dict_value, no_elements, element,
  no_fields, field,
}
use bencode.Value.Build.{push_element}
use bencode.Value.Last.{push_field}

-- No string of the tree borrows its bytes.
abbrev mutual
  pub IsDetached : Value → Type 0
  IsDetached (int_value i) = Unit
  IsDetached (string_value bs owned) = (bs ≡ []) ⊎ (owned ≡ true)
  IsDetached (list_value xs capacity) = IsDetachedElements xs
  IsDetached (dict_value fs capacity) = IsDetachedFields fs

  pub IsDetachedElements : Elements → Type 0
  IsDetachedElements no_elements = Unit
  IsDetachedElements (element v xs) = IsDetached v × IsDetachedElements xs

  pub IsDetachedFields : Fields → Type 0
  IsDetachedFields no_fields = Unit
  IsDetachedFields (field k v fs) = IsDetached v × IsDetachedFields fs

pub IsDetachedElements-push_element :
    (xs : Elements) (v : Value)
    → IsDetachedElements xs
    → IsDetached v
    → IsDetachedElements (push_element xs v)
IsDetachedElements-push_element no_elements v d e = (e, tt)
IsDetachedElements-push_element (element w xs) v (d, ds) e =
    (d, IsDetachedElements-push_element xs v ds e)

pub IsDetachedFields-push_field :
    (fs : Fields) (k : Bytes) (v : Value)
    → IsDetachedFields fs
    → IsDetached v
    → IsDetachedFields (push_field k v fs)
IsDetachedFields-push_field no_fields k v d e = (e, tt)
IsDetachedFields-push_field (field j w fs) k v (d, ds) e =
    (d, IsDetachedFields-push_field fs k v ds e)
