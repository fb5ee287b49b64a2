-- ===== src/Value/Last.antt =====
-- A child put behind all others: the element that bencode_list_append adds, and the entry that
-- bencode_dict_set adds where the key stands behind the other keys.
use mathlib.Core.Option.{some-injective}
use bencode.Prelude.{
  ℕ, zero, suc, ◌+◌, ◌≡◌, ◌≤◌, ◌∙◌, ap, subst, inl, inr, refl, Bytes, some, length, arith,
}
use bencode.Grammar.{After, Items, Entries, no_items, item, no_entries, entry}
use bencode.KeyOrder.{Before}
use bencode.KeyOrder.Laws.{Before-irrefl, Before-trans}
use bencode.Memory.{block}
use bencode.Value.{
  Value, Elements, Fields, no_elements, element, no_fields, field, count_fields, blocks,
  blocks_fields, view, view_elements, view_fields,
}
use bencode.Value.Build.{push_element}
use bencode.Value.Dict.{Place, key_at, insert_at}
use bencode.Value.Dict.Search.{
  IsOrdered, Precedes, Finds, found, missing, Above, key_at_total, lt_or_eq,
}
use bencode.Value.Dict.Set.{Edit, replaced, inserted}

abbrev pub push_field : Bytes → Value → Fields → Fields
push_field k v no_fields = field k v no_fields
push_field k v (field j w fs) = field j w (push_field k v fs)

-- Every key stands before `k`.
abbrev pub IsLast : Fields → Bytes → Type 0
IsLast fs k = (i : ℕ) (j : Bytes) → key_at fs i ≡ some j → Before j k

pub insert_at_last :
    (fs : Fields) (k : Bytes) (v : Value) → insert_at (count_fields fs) k v fs ≡ push_field k v fs
insert_at_last no_fields k v = refl
insert_at_last (field j w fs) k v = ap (field j w) (insert_at_last fs k v)

pub count-push_field :
    (fs : Fields) (k : Bytes) (v : Value) → count_fields (push_field k v fs) ≡ suc (count_fields fs)
count-push_field no_fields k v = refl
count-push_field (field j w fs) k v = ap suc (count-push_field fs k v)

pub Above-last :
    (fs : Fields) (k : Bytes) (i : ℕ)
    → IsLast fs k
    → i ≤ count_fields fs
    → Above fs k i
    → i ≡ count_fields fs
Above-last fs k i last le above = elim (lt_or_eq i (count_fields fs) le) [
  | inr same ↦ same
  | inl less ↦
      let (j, e) = key_at_total fs i less in
      absurd (Before-irrefl k (Before-trans k j k (above i j (omega arith) e) (last i j e)))
]

pub Finds-last :
    (fs : Fields) (k : Bytes) (p : Place) → IsLast fs k → Finds fs k p → p.index ≡ count_fields fs
Finds-last fs k _ last (found {i} e) = absurd (Before-irrefl k (last i k e))
Finds-last fs k _ last (missing {i} le _ above) = Above-last fs k i last le above

pub Edit-last :
    (fs : Fields) (k : Bytes) (v : Value) (others : ℕ) (gs : Fields)
    → IsLast fs k
    → Edit fs k v others gs
    → gs ≡ push_field k v fs
Edit-last fs k v others _ last (replaced i e) = absurd (Before-irrefl k (last i k e))
Edit-last fs k v others _ last (inserted i le _ above) =
    ap (λ n. insert_at n k v fs) (Above-last fs k i last le above) ∙ insert_at_last fs k v

pub blocks-push_field :
    (fs : Fields) (k : Bytes) (c : Value)
    → blocks_fields (push_field k c fs) ≡ block (length k) + blocks_fields fs + blocks c
unfolding blocks
blocks-push_field no_fields k c = omega arith
blocks-push_field (field j v fs) k c = omega (arith, blocks-push_field fs k c)

-- The elements built so far, and the items to come.
abbrev pub join : Elements → Items → Items
join no_elements ts = ts
join (element v xs) ts = item (view v) (join xs ts)

abbrev pub join_fields : Fields → Entries → Entries
join_fields no_fields es = es
join_fields (field k v fs) es = entry k (view v) (join_fields fs es)

pub join-no_items : (xs : Elements) → view_elements xs ≡ join xs no_items
unfolding view
join-no_items no_elements = refl
join-no_items (element v xs) = ap (item (view v)) (join-no_items xs)

pub join-push_element :
    (xs : Elements) (v : Value) (ts : Items)
    → join (push_element xs v) ts ≡ join xs (item (view v) ts)
join-push_element no_elements v ts = refl
join-push_element (element w xs) v ts = ap (item (view w)) (join-push_element xs v ts)

pub join-no_entries : (fs : Fields) → view_fields fs ≡ join_fields fs no_entries
unfolding view
join-no_entries no_fields = refl
join-no_entries (field k v fs) = ap (entry k (view v)) (join-no_entries fs)

pub join-push_field :
    (fs : Fields) (k : Bytes) (v : Value) (es : Entries)
    → join_fields (push_field k v fs) es ≡ join_fields fs (entry k (view v) es)
join-push_field no_fields k v es = refl
join-push_field (field j w fs) k v es = ap (entry j (view w)) (join-push_field fs k v es)

-- A key behind all others keeps the order.
pub Precedes-push_field :
    (j k : Bytes) (v : Value) (fs : Fields)
    → Precedes j fs
    → Before j k
    → Precedes j (push_field k v fs)
Precedes-push_field j k v no_fields p b = b
Precedes-push_field j k v (field i w fs) p b = p

pub push_field-IsOrdered :
    (fs : Fields) (k : Bytes) (v : Value)
    → IsOrdered fs
    → IsLast fs k
    → IsOrdered (push_field k v fs)
push_field-IsOrdered no_fields k v o last = (tt, tt)
push_field-IsOrdered (field j w fs) k v (p, o) last = (
  Precedes-push_field j k v fs p (last 0 j refl),
  push_field-IsOrdered fs k v o (λ i. last (suc i)),
)

pub push_field-IsLast :
    (fs : Fields) (k n : Bytes) (v : Value)
    → IsLast fs k
    → Before k n
    → IsLast (push_field k v fs) n
push_field-IsLast no_fields k n v last b zero j e = subst (λ x. Before x n) (some-injective k j e) b
push_field-IsLast no_fields k n v last b (suc i) j e = cc
push_field-IsLast (field l w fs) k n v last b zero j e =
    subst (λ x. Before x n) (some-injective l j e) (Before-trans l k n (last 0 l refl) b)
push_field-IsLast (field l w fs) k n v last b (suc i) j e =
    push_field-IsLast fs k n v (λ m. last (suc m)) b i j e

-- The entries to come stand behind those built so far.
abbrev pub Follows : Fields → Entries → Type 0
Follows fs no_entries = Unit
Follows fs (entry k t es) = IsLast fs k

pub start_Follows : (es : Entries) → Follows no_fields es
start_Follows no_entries = tt
start_Follows (entry k t es) = λ i j e. cc

pub Follows-push_field :
    (fs : Fields) (k : Bytes) (v : Value) (es : Entries)
    → IsLast fs k
    → After k es
    → Follows (push_field k v fs) es
Follows-push_field fs k v no_entries last a = tt
Follows-push_field fs k v (entry n t es) last a = push_field-IsLast fs k n v last a
