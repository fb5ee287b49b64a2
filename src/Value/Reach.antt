-- ===== src/Value/Reach.antt =====
-- Every tree that the builders can make is well formed, so the format can represent its value.
pub mod Trees
use bencode.Prelude.{
  ℕ, ◌+◌, ◌≤◌, ◌≡◌, ◌≢◌, ◌∙◌, refl, sym, ap, subst, inl, inr, Bytes, Bool, true, false, Option,
  none, some, [], ◌∷◌, length, Bool-cases, arith, if◌then◌else◌,
}
use bencode.Prelude.Text.{same_text, same_text-eq}
use bencode.Prelude.Int.{ℤ, IsInt64, size_max}
use bencode.Status.{Status, ok, err}
use bencode.Grammar.{IsCanonical, IsCanonicalItems, IsCanonicalEntries, After, IsSized}
use bencode.Exec.{Run, returned, ◌>>◌}
use bencode.Exec.Ensures
use bencode.Exec.Ensures.{Ensures, returns, raises, Ensures-ok}
use bencode.Memory.{Memory, Heap, allocator_check}
use bencode.Value.{
  Value, Elements, Fields, int_value, string_value, list_value, dict_value, no_elements, element,
  no_fields, field, count_elements, count_fields, view, view_elements, view_fields, blocks,
}
use bencode.Value.Build.{
  push_element, check_out, value_alloc, int_new, string_new, list_new, dict_new, list_append,
}
use bencode.Value.Build.Nodes.{Made, value_alloc-Ensures}
use bencode.Value.Build.Append.{Appended, list_append-Ensures}
use bencode.Value.Dict.{dict_set}
use bencode.Value.Dict.Search.{IsOrdered, Precedes}
use bencode.Value.Dict.Edits.{Has}
use bencode.Value.Dict.Set.{Updated, dict_set-Ensures}
use bencode.Value.Access.Get.{Has-unique}
use bencode.Value.Map.{different}

-- Integers in int64_t, strings that size_t measures, elements and entries within their arrays, and
-- keys that ascend.
abbrev mutual
  pub IsWell : Value → Type 0
  IsWell (int_value i) = IsInt64 i
  IsWell (string_value bs owned) = IsSized bs
  IsWell (list_value xs capacity) =
      (capacity ≤ size_max) × (count_elements xs ≤ capacity) × IsWellElements xs
  IsWell (dict_value fs capacity) =
      (capacity ≤ size_max) × (count_fields fs ≤ capacity) × IsOrdered fs × IsWellFields fs

  pub IsWellElements : Elements → Type 0
  IsWellElements no_elements = Unit
  IsWellElements (element v xs) = IsWell v × IsWellElements xs

  pub IsWellFields : Fields → Type 0
  IsWellFields no_fields = Unit
  IsWellFields (field k v fs) = IsSized k × IsWell v × IsWellFields fs

Precedes-After : (k : Bytes) (fs : Fields) → Precedes k fs → After k (view_fields fs)
unfolding view
Precedes-After k no_fields p = tt
Precedes-After k (field j v fs) p = p

mutual
  unfolding view

  pub IsWell-IsCanonical : (v : Value) → IsWell v → IsCanonical (view v)
  IsWell-IsCanonical (int_value i) w = w
  IsWell-IsCanonical (string_value bs owned) w = w
  IsWell-IsCanonical (list_value xs capacity) (_, _, w) = elements-IsCanonical xs w
  IsWell-IsCanonical (dict_value fs capacity) (_, _, o, w) = fields-IsCanonical fs o w

  elements-IsCanonical : (xs : Elements) → IsWellElements xs → IsCanonicalItems (view_elements xs)
  elements-IsCanonical no_elements w = tt
  elements-IsCanonical (element v xs) (w, ws) = (IsWell-IsCanonical v w, elements-IsCanonical xs ws)

  fields-IsCanonical :
      (fs : Fields) → IsOrdered fs → IsWellFields fs → IsCanonicalEntries (view_fields fs)
  fields-IsCanonical no_fields o w = tt
  fields-IsCanonical (field k v fs) (p, o) (sized, w, ws) =
      (sized, Precedes-After k fs p, IsWell-IsCanonical v w, fields-IsCanonical fs o ws)

pub push_element-IsWell :
    (xs : Elements) (v : Value) → IsWellElements xs → IsWell v → IsWellElements (push_element xs v)
push_element-IsWell no_elements v ws w = (w, tt)
push_element-IsWell (element u xs) v (w, ws) x = (w, push_element-IsWell xs v ws x)

pub count-push_element :
    (xs : Elements) (v : Value) → count_elements (push_element xs v) ≡ count_elements xs + 1
count-push_element no_elements v = omega arith
count-push_element (element u xs) v = omega (arith, count-push_element xs v)

-- A dictionary, by what it maps a key to.
Has-IsWell :
    (fs : Fields) (k : Bytes) (v : Value) → IsWellFields fs → Has fs k v → IsSized k × IsWell v
Has-IsWell no_fields k v w h = absurd h
Has-IsWell (field j u fs) k v (sized, w, ws) (inl (e, f)) =
    (subst IsSized e sized, subst IsWell f w)
Has-IsWell (field j u fs) k v (sized, w, ws) (inr h) = Has-IsWell fs k v ws h

IsWell-Has :
    (fs : Fields) → ((k : Bytes) (v : Value) → Has fs k v → IsSized k × IsWell v) → IsWellFields fs
IsWell-Has no_fields each = tt
IsWell-Has (field k v fs) each =
    let (sized, w) = each k v (inl (refl, refl)) in
    (sized, w, IsWell-Has fs (λ j u h. each j u (inr h)))

module _ (fs : Fields) (key : Bytes) (child : Value) (others : ℕ) where
  pub Updated-IsWell :
      (after : Value) (t : Memory)
      → IsWellFields fs
      → IsSized key
      → IsWell child
      → Updated fs key child others after t
      → IsWell after
  Updated-IsWell after t ws sized w u = rw u.same (
    u.sized,
    u.room,
    u.ordered,
    IsWell-Has u.fields (λ q x h. elim (Bool-cases (same_text q key)) [
      | inl same ↦
          let e = same_text-eq q key same in
          let f =
            Has-unique u.fields key child x u.ordered u.update.maps
              (subst (λ k. Has u.fields k x) e h) in
          (subst IsSized (sym e) sized, subst IsWell f w)
      | inr other ↦ Has-IsWell fs q x ws ((u.update.keeps q x (λ e. different q key e other)).0 h)
    ]),
  )
