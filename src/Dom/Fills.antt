-- ===== src/Dom/Fills.antt =====
-- What each callback does to the containers that are open.
use bencode.Prelude.{ℕ, ◌≡◌, ◌≤◌, ap, refl, none, true, false, List, [], ◌∷◌, arith, Bytes}
use bencode.Prelude.Int.{size_max}
use bencode.Grammar.{Tree, list, dict, no_items, no_entries, on_string, on_list_end, on_dict_end}
use bencode.Exec.Ensures.{Ensures, returns}
use bencode.Memory.{Heap}
use bencode.Value.Last.{
  push_field, IsLast, count-push_field, join, join_fields, join-no_items, join-no_entries,
  push_field-IsOrdered,
}
use bencode.Value.{
  Value, Elements, Fields, string_value, list_value, dict_value, count_fields, view,
}
use bencode.Value.Build.{push_element}
use bencode.Value.Dict.Search.{IsOrdered}
use bencode.Dom.{DomState}
use bencode.Dom.Callbacks.{dom_on_string}
use bencode.Dom.Contexts.{Context, in_list, in_dict, follow-plug}
use bencode.Dom.Change.{dom}
use bencode.Dom.Attach.{Waits, Filled, Fails, Reseats, at_list, at_dict}
use bencode.Dom.Leaves.{Stands, IsSafe, attach_string-Ensures}
use bencode.Dom.Opens.{Open}
use bencode.Dom.Leads.{action_of}

module _ (h : Heap) (others : ℕ) where
  -- A tree that represents `t` stands in the innermost context.
  abbrev pub Built : List Context → Tree → DomState → Type 0
  Built cs t s =
      (ds : List Context) × Reseats cs ds × (v : Value) × (view v ≡ t) × Filled others ds v s

  -- The container in `ds` was completed.
  abbrev pub Closed : List Context → Tree → DomState → Type 0
  Closed ds t s = (v : Value) × (view v ≡ t) × Filled others ds v s

  pub close_list :
      (xs : Elements) (c : ℕ) (ds : List Context) (s : DomState)
      → Waits others (in_list xs c ∷ ds) s
      → Ensures
          (λ _ t. Closed ds (list (join xs no_items)) t)
          (Fails others)
          (action_of h on_list_end s)
  unfolding action_of view
  close_list xs c ds s (m, same, live, _) =
      rw same (returns (list_value xs c, ap list (join-no_items xs), (m, refl, live)))

  -- A dictionary where a key or the end may come.
  abbrev pub DictOpen : List Context → Fields → DomState → Type 0
  DictOpen ds fs s =
      (c : ℕ) × (c ≤ size_max)
      × (count_fields fs ≤ c)
      × IsOrdered fs
      × Open others ds (dict_value fs c) true s

  pub DictOpen-IsSafe :
      (fs : Fields) (ds : List Context) (s : DomState) → DictOpen ds fs s → IsSafe others s
  DictOpen-IsSafe fs ds s (c, _, _, _, (m, same, live)) = rw same live

  pub close_dict :
      (fs : Fields) (ds : List Context) (s : DomState)
      → DictOpen ds fs s
      → Ensures
          (λ _ t. Closed ds (dict (join_fields fs no_entries)) t)
          (Fails others)
          (action_of h on_dict_end s)
  unfolding action_of view
  close_dict fs ds s (c, _, _, _, (m, same, live)) =
      rw same (returns (dict_value fs c, ap dict (join-no_entries fs), (m, refl, live)))

  pub stash_key :
      (fs : Fields) (k : Bytes) (ds : List Context) (s : DomState)
      → DictOpen ds fs s
      → IsLast fs k
      → Ensures
          (λ _ t. (c : ℕ) × Waits others (in_dict fs k c ∷ ds) t)
          (Fails others)
          (action_of h (on_string k) s)
  unfolding action_of dom_on_string
  stash_key fs k ds s (c, small, room, ordered, (m, same, live)) last =
      rw (same, follow-plug ds (dict_value fs c))
        (returns (c, (m, refl, live, small, room, ordered, last)))

  pub string-Stands :
      (bs : Bytes) (cs : List Context) (s : DomState)
      → Waits others cs s
      → Ensures
          (λ _ t. Stands others h (string_value bs false) cs t)
          (Fails others)
          (action_of h (on_string bs) s)
  unfolding action_of dom_on_string
  string-Stands bs [] s (m, same, live) =
      rw same (attach_string-Ensures others h bs [] (dom none [] m) (m, refl, live))
  string-Stands bs (in_list xs c ∷ cs) s (m, same, live, small) =
      rw (same, follow-plug cs (list_value xs c))
        (attach_string-Ensures others h bs (in_list xs c ∷ cs) _ (m, refl, live, small))
  string-Stands bs (in_dict fs k c ∷ cs) s (m, same, live, small, room, ordered, last) =
      rw (same, follow-plug cs (dict_value fs c))
        (attach_string-Ensures others h bs (in_dict fs k c ∷ cs) _
          (m, refl, live, small, room, ordered, last))

  pub leaf_Built :
      (v : Value) (t : Tree) (cs : List Context) (s : DomState)
      → view v ≡ t
      → Stands others h v cs s
      → Built cs t s
  leaf_Built v t cs s e (p, (ds, reseats, _, filled)) = (ds, reseats, v, e, filled)

  -- The list after a value was put into it, ready for the next.
  pub next_item :
      {xs : Elements} {c : ℕ} {ds : List Context} {t : Tree} (s : DomState)
      → Built (in_list xs c ∷ ds) t s
      → (v : Value) × (d : ℕ) × (view v ≡ t) × Waits others (in_list (push_element xs v) d ∷ ds) s
  next_item s (_, at_list {d} below, v, e, (m, same, live)) = (v, d, e, (m, same, live, below))

  pub next_entry :
      {fs : Fields} {k : Bytes} {c : ℕ} {ds : List Context} {t : Tree} (s : DomState)
      → IsOrdered fs
      → IsLast fs k
      → Built (in_dict fs k c ∷ ds) t s
      → (v : Value) × (view v ≡ t) × DictOpen ds (push_field k v fs) s
  next_entry {fs} {k} s o last (_, at_dict {d} below room, v, e, (m, same, live)) = (
    v,
    e,
    (
      d,
      below,
      omega (arith, room, count-push_field fs k v),
      push_field-IsOrdered fs k v o last,
      (m, same, live),
    ),
  )
