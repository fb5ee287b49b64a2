-- ===== src/Dom/Builds.antt =====
-- The callbacks for the events of a value build a tree that represents it.
use bencode.Prelude.{
  Bytes, ℕ, suc, ◌+◌, ◌≡◌, ◌≤◌, ◌∙◌, ap, sym, subst, refl, none, some, true, false, List, [], ◌∷◌,
  ◌++◌, length, arith,
}
use bencode.Status.{ok}
use bencode.Grammar.{
  Tree, Items, Entries, int, str, list, dict, no_items, item, no_entries, entry, IsCanonical,
  IsCanonicalItems, IsCanonicalEntries, depth, depth_items, depth_entries, events, events_items,
  events_entries, Event, on_int, on_string, on_list_begin, on_list_end, on_dict_begin, on_dict_end,
}
use bencode.Exec.Ensures.{Ensures}
use bencode.Memory.{Memory, Heap, allocator_check}
use bencode.Value.Last.{
  Follows, start_Follows, Follows-push_field, push_field, join, join_fields, join-push_element,
  join-push_field,
}
use bencode.Value.{Elements, Fields, int_value, string_value, no_elements, no_fields, view}
use bencode.Value.Build.{push_element}
use bencode.Sax.Events.{deliver, Breaks}
use bencode.Dom.{DomState}
use bencode.Dom.Callbacks.{DomUser, building, dom_callbacks}
use bencode.Dom.Contexts.{Context, in_list, in_dict}
use bencode.Dom.Change.{dom}
use bencode.Dom.Attach.{Waits, Fails}
use bencode.Dom.Leaves.{Waits-live, IsSafe, dom_on_int-Ensures}
use bencode.Dom.Opens.{open_container-Ensures, length-Reseats}
use bencode.Dom.Leads.{
  Leads, Runs, done, action_of, cons_Runs, append_Runs, mono_Runs, Runs-Leads, Runs-prefix,
}
use bencode.Dom.Fills.{
  Closed, close_list, DictOpen-IsSafe, DictOpen, close_dict, stash_key, string-Stands, leaf_Built,
  next_item, next_entry, Built,
}

module _ (h : Heap) (others : ℕ) where
  module _ (valid : allocator_check h ≡ ok tt) where
    abbrev pub Deliver : (DomState → Type 0) → List Event → DomState → Type 0
    Deliver P es s = Runs h (IsSafe others) (Fails others) P es s

    last_event :
        {P : DomState → Type 0} (e : Event) (s : DomState)
        → IsSafe others s
        → Ensures (λ _ t. P t) (Fails others) (action_of h e s)
        → Deliver P (e ∷ []) s
    last_event e s safe a = cons_Runs h e [] s safe a (λ t p. done p)

    mutual
      unfolding events action_of view

      value_builds :
          (t : Tree) (cs : List Context) (s : DomState)
          → IsCanonical t
          → length cs + depth t ≤ 256
          → Waits others cs s
          → Deliver (Built h others cs t) (events t) s
      value_builds (int i) cs s canonical shallow w =
          mono_Runs h
            (last_event (on_int i) s (Waits-live others cs s w)
              (dom_on_int-Ensures others h i cs s valid w))
            (λ t a. leaf_Built h others (int_value i) (int i) cs t refl a)
      value_builds (str bs) cs s canonical shallow w =
          mono_Runs h
            (last_event (on_string bs) s (Waits-live others cs s w)
              (string-Stands h others bs cs s w))
            (λ t a. leaf_Built h others (string_value bs false) (str bs) cs t refl a)
      value_builds (list ts) cs s canonical shallow w =
          cons_Runs h on_list_begin (events_items ts) s (Waits-live others cs s w)
            (open_container-Ensures others h false cs s valid (omega arith) w)
            (λ t (ds, reseats, (m, same, live)).
              mono_Runs h
                (items_build ts no_elements 0 ds t canonical (omega (arith, length-Reseats reseats))
                  (m, same, live, omega arith))
                (λ u (v, e, filled). (ds, reseats, v, e, filled)))
      value_builds (dict es) cs s canonical shallow w =
          cons_Runs h on_dict_begin (events_entries es) s (Waits-live others cs s w)
            (open_container-Ensures others h true cs s valid (omega arith) w)
            (λ t (ds, reseats, open_dict).
              mono_Runs h
                (entries_build es no_fields ds t canonical (omega (arith, length-Reseats reseats))
                  (start_Follows es) (0, omega arith, omega arith, tt, open_dict))
                (λ u (v, e, filled). (ds, reseats, v, e, filled)))

      items_build :
          (ts : Items) (xs : Elements) (c : ℕ) (ds : List Context) (s : DomState)
          → IsCanonicalItems ts
          → length ds + suc (depth_items ts) ≤ 256
          → Waits others (in_list xs c ∷ ds) s
          → Deliver (Closed h others ds (list (join xs ts))) (events_items ts) s
      items_build no_items xs c ds s canonical shallow w =
          last_event on_list_end s (Waits-live others (in_list xs c ∷ ds) s w)
            (close_list h others xs c ds s w)
      items_build (item t ts) xs c ds s (ct, cts) shallow w =
          append_Runs h (events_items ts) (value_builds t (in_list xs c ∷ ds) s ct (omega arith) w)
            (λ u b.
              let (v, d, e, w') = next_item h others u b in
              mono_Runs h (items_build ts (push_element xs v) d ds u cts (omega arith) w')
                (λ z (x, f, filled). (
                  x,
                  f ∙ ap list (join-push_element xs v ts ∙ ap (λ y. join xs (item y ts)) e),
                  filled,
                )))

      entries_build :
          (es : Entries) (fs : Fields) (ds : List Context) (s : DomState)
          → IsCanonicalEntries es
          → length ds + suc (depth_entries es) ≤ 256
          → Follows fs es
          → DictOpen h others ds fs s
          → Deliver (Closed h others ds (dict (join_fields fs es))) (events_entries es) s
      entries_build no_entries fs ds s canonical shallow follows o =
          last_event on_dict_end s (DictOpen-IsSafe h others fs ds s o)
            (close_dict h others fs ds s o)
      entries_build (entry k t es) fs ds s (sized, after, ct, ces) shallow follows
            (c, small, room, ordered, opened) =
          cons_Runs h (on_string k) (events t ++ events_entries es) s
            (DictOpen-IsSafe h others fs ds s (c, small, room, ordered, opened))
            (stash_key h others fs k ds s (c, small, room, ordered, opened) follows)
            (λ u (d, w).
              append_Runs h (events_entries es)
                (value_builds t (in_dict fs k d ∷ ds) u ct (omega arith) w)
                (λ y b.
                  let (v, e, o') = next_entry h others y ordered follows b in
                  mono_Runs h
                    (entries_build es (push_field k v fs) ds y ces (omega arith)
                      (Follows-push_field fs k v es follows after) o')
                    (λ z (x, f, filled). (
                      x,
                      f
                          ∙ ap dict (
                              join-push_field fs k v es
                              ∙ ap (λ q. join_fields fs (entry k q es)) e),
                      filled,
                    ))))

    -- The callbacks for the events of a value, from the empty state.
    pub builds_all :
        (t : Tree) (m : Memory)
        → IsCanonical t
        → depth t ≤ 256
        → m.live ≡ others
        → Deliver (Built h others [] t) (events t) (dom none [] m)
    builds_all t m canonical shallow live =
        value_builds t [] (dom none [] m) canonical (omega arith) (m, refl, live)

    pub builds_value :
        (t : Tree) (m : Memory)
        → IsCanonical t
        → depth t ≤ 256
        → m.live ≡ others
        → Leads
            (Built h others [] t)
            (Fails others)
            (deliver (some (dom_callbacks h)) (events t) (building (dom none [] m)))
    builds_value t m canonical shallow live = Runs-Leads h (builds_all t m canonical shallow live)

    Built-IsSafe : (t : Tree) (s : DomState) → Built h others [] t s → IsSafe others s
    Built-IsSafe t s (ds, _, v, _, (m, same, live)) = rw same live

    -- Wherever the callbacks for the events of a value break off, the blocks of the tree are live.
    pub Breaks-IsSafe :
        (input : Bytes) (t : Tree) (m : Memory) (u : DomUser)
        → IsCanonical t
        → depth t ≤ 256
        → m.live ≡ others
        → Breaks (some (dom_callbacks h)) input (events t) (building (dom none [] m)) u
        → (s : DomState) × (u ≡ building s) × IsSafe others s
    Breaks-IsSafe input t m u canonical shallow live (es, more, _, split, _, st, sent) =
        let (s, same, safe) =
          Runs-prefix h es more (dom none [] m) (Built-IsSafe t) (λ _ _ (_, owns). owns)
            (subst (λ x. Deliver (Built h others [] t) x (dom none [] m)) split
              (builds_all t m canonical shallow live)) in
        (s, sym (ap (λ o. o.1) sent) ∙ same, safe)
