-- ===== src/Value/Access/Rounds.antt =====
-- What a loop over bencode_list_at or bencode_dict_at sees in round i.
use bencode.Prelude.{ℕ, zero, suc, ◌+◌, ◌≡◌, ap, Bytes, some, true, ltb, lt→ltb, arith}
use bencode.Exec.{pure}
use bencode.Memory.{Memory}
use bencode.Value.{
  Value, Elements, Fields, list_value, dict_value, no_elements, element, no_fields, field,
  count_elements, count_fields,
}
use bencode.Value.Dict.{key_at, value_at}
use bencode.Value.Access.{list_at, element_at, dict_at}

-- The elements from index i on.
abbrev pub drop_elements : ℕ → Elements → Elements
drop_elements zero xs = xs
drop_elements (suc i) no_elements = no_elements
drop_elements (suc i) (element v xs) = drop_elements i xs

abbrev pub drop_fields : ℕ → Fields → Fields
drop_fields zero fs = fs
drop_fields (suc i) no_fields = no_fields
drop_fields (suc i) (field k v fs) = drop_fields i fs

module _ (v : Value) (xs : Elements) where
  element_at-drop :
      (i : ℕ) (all : Elements) (m : Memory)
      → drop_elements i all ≡ element v xs
      → element_at all i m ≡ pure v m
  element_at-drop zero no_elements m e = cc
  element_at-drop zero (element u us) m e = cc
  element_at-drop (suc i) no_elements m e = cc
  element_at-drop (suc i) (element u us) m e = element_at-drop i us m e

  pub drop_next_element :
      (i : ℕ) (all : Elements) → drop_elements i all ≡ element v xs → drop_elements (suc i) all ≡ xs
  drop_next_element zero no_elements e = cc
  drop_next_element zero (element u us) e = cc
  drop_next_element (suc i) no_elements e = cc
  drop_next_element (suc i) (element u us) e = drop_next_element i us e

  pub count-drop_elements :
      (i : ℕ) (all : Elements)
      → drop_elements i all ≡ element v xs
      → count_elements all ≡ i + suc (count_elements xs)
  count-drop_elements zero all e =
      let h : count_elements all ≡ suc (count_elements xs) = ap count_elements e in omega (arith, h)
  count-drop_elements (suc i) no_elements e = cc
  count-drop_elements (suc i) (element u us) e = omega (arith, count-drop_elements i us e)

  pub list_at-drop :
      (i capacity : ℕ) (all : Elements) (m : Memory)
      → drop_elements i all ≡ element v xs
      → list_at (some (list_value all capacity)) i m ≡ pure (some v) m
  unfolding list_at
  list_at-drop i capacity all m e =
      let inside : ltb i (count_elements all) ≡ true =
        lt→ltb i (count_elements all) (omega (arith, count-drop_elements i all e)) in
      rw (inside, element_at-drop i all m e)

module _ (k : Bytes) (v : Value) (fs : Fields) where
  key_at-drop : (i : ℕ) (all : Fields) → drop_fields i all ≡ field k v fs → key_at all i ≡ some k
  key_at-drop zero no_fields e = cc
  key_at-drop zero (field j u us) e = cc
  key_at-drop (suc i) no_fields e = cc
  key_at-drop (suc i) (field j u us) e = key_at-drop i us e

  value_at-drop :
      (i : ℕ) (all : Fields) → drop_fields i all ≡ field k v fs → value_at all i ≡ some v
  value_at-drop zero no_fields e = cc
  value_at-drop zero (field j u us) e = cc
  value_at-drop (suc i) no_fields e = cc
  value_at-drop (suc i) (field j u us) e = value_at-drop i us e

  pub drop_next_field :
      (i : ℕ) (all : Fields) → drop_fields i all ≡ field k v fs → drop_fields (suc i) all ≡ fs
  drop_next_field zero no_fields e = cc
  drop_next_field zero (field j u us) e = cc
  drop_next_field (suc i) no_fields e = cc
  drop_next_field (suc i) (field j u us) e = drop_next_field i us e

  pub count-drop_fields :
      (i : ℕ) (all : Fields)
      → drop_fields i all ≡ field k v fs
      → count_fields all ≡ i + suc (count_fields fs)
  count-drop_fields zero all e =
      let h : count_fields all ≡ suc (count_fields fs) = ap count_fields e in omega (arith, h)
  count-drop_fields (suc i) no_fields e = cc
  count-drop_fields (suc i) (field j u us) e = omega (arith, count-drop_fields i us e)

  pub dict_at-drop :
      (i capacity : ℕ) (all : Fields) (m : Memory)
      → drop_fields i all ≡ field k v fs
      → dict_at (some (dict_value all capacity)) i m ≡ pure (k, v) m
  unfolding dict_at
  dict_at-drop i capacity all m e =
      let inside : ltb i (count_fields all) ≡ true =
        lt→ltb i (count_fields all) (omega (arith, count-drop_fields i all e)) in
      rw (inside, key_at-drop i all e, value_at-drop i all e)
