-- ===== src/Cli/Walk/Exact.antt =====
-- walk counts exactly the census of a value, unless a counter would pass 2 ^ 64 - 1.
use bencode.Prelude.{
  ℕ, zero, suc, ◌≤◌, ◌<◌, ◌≡◌, ◌∙◌, sym, ap, refl, subst, Bytes, Option, some, arith, length,
}
use bencode.Prelude.Int.{size_max}
use bencode.Status.{ok}
use bencode.Exec.{Exec, returned, pure, and_then, ◌>>=◌, ◌>>◌}
use bencode.Memory.{Memory}
use bencode.Cli.Walk.Bounds.{IsWithin-mono, census-IsWithin}
use bencode.Grammar.{encode, depth, depth_items, depth_entries}
use bencode.Value.{
  Value, Elements, Fields, int_value, string_value, list_value, dict_value, no_elements, element,
  no_fields, field, count_elements, count_fields, view, view_elements, view_fields,
}
use bencode.Value.Access.{value_string, list_size, dict_size, list_at, dict_at}
use bencode.Value.Access.Rounds.{
  drop_elements, drop_fields, list_at-drop, dict_at-drop, drop_next_element, drop_next_field,
}
use bencode.Cli.{World, world, on_heap, attempt, for_each}
use bencode.Cli.Walk.{
  Stats, no_stats, Count, tally, count_value, count_int, count_string, count_bytes, count_list,
  count_dict, walk_item, walk_entry, walk_kind, walk, walk_found,
}
use bencode.Cli.Walk.Census.{
  ◌⊕◌, one_value, one_string, census, census_items, census_entries, IsWithin, IsWithin-left,
  ⊕_assoc, ⊕_nothing, nothing_⊕, count_value-adds, count_int-adds, count_string-adds,
  count_list-adds, count_dict-adds,
}

-- The action adds `c` to the statistics.
record Adds (c : Stats) (a : Count) : Type 0 where
  adds :
      (m : Memory) (st : Stats)
      → IsWithin size_max (st ⊕ c)
      → a (world m st) ≡ pure tt (world m (st ⊕ c))

Adds-nothing : Adds no_stats (pure tt)
Adds-nothing = record { adds = λ m st small. ap (λ t. pure tt (world m t)) (sym (⊕_nothing st)) }

Adds-tally :
    {c : Stats} (f : Stats → Stats)
    → ((st : Stats) → IsWithin size_max (st ⊕ c) → f st ≡ st ⊕ c)
    → Adds c (tally f)
Adds-tally f h = record { adds = λ m st small. ap (λ t. pure tt (world m t)) (h st small) }

Adds-then : {c d : Stats} {a b : Count} → Adds c a → Adds d b → Adds (c ⊕ d) (a >> b)
Adds-then {c} {d} {b = b} ha hb = record {
  adds = λ m st small.
      let within : IsWithin size_max (st ⊕ c ⊕ d) =
        subst (IsWithin size_max) (sym (⊕_assoc st c d)) small in
      ap (λ r. and_then r (λ _. b)) (ha.adds m st (IsWithin-left (st ⊕ c) d within))
      ∙ hb.adds m (st ⊕ c) within
      ∙ ap (λ t. pure tt (world m t)) (⊕_assoc st c d);
}

Adds-value :
    {c : Stats} {a : Count} (level : ℕ)
    → Adds c a
    → Adds (one_value level ⊕ c) (tally (count_value level) >> a)
Adds-value level h = Adds-then (Adds-tally (count_value level) (λ st. count_value-adds st level)) h

-- A key, and a string, count in two steps.
Adds-string :
    (bs : Bytes) → Adds (one_string bs) (tally count_string >> tally (count_bytes (length bs)))
Adds-string bs = record {
  adds = λ m st small. ap (λ t. pure tt (world m t)) (count_string-adds st bs small);
}

-- A call that only reads.
Adds-read :
    {A : Type 0} {c : Stats} (a : Exec (World Stats) A) (k : A → Count) (x : A)
    → ((m : Memory) (st : Stats) → a (world m st) ≡ returned (ok x) (world m st))
    → Adds c (k x)
    → Adds c (a >>= k)
Adds-read a k x e h = record { adds = λ m st small. rw (e m st) (h.adds m st small) }

module _ (walk_child : Option Value → ℕ → Count) (limit : ℕ)
    (child_adds : (v : Value) (level : ℕ)
      → depth (view v) < limit
      → Adds (census level (view v)) (walk_child (some v) level)) where
  walk_items-Adds :
      (all : Elements) (capacity level i : ℕ) (xs : Elements)
      → drop_elements i all ≡ xs
      → depth_items (view_elements xs) < limit
      → Adds (census_items (suc level) (view_elements xs)) (
          for_each
            (count_elements xs)
            i
            (walk_item walk_child (some (list_value all capacity)) level))
  unfolding view census walk_item
  walk_items-Adds all capacity level i no_elements here shallow = Adds-nothing
  walk_items-Adds all capacity level i (element v xs) here shallow =
      Adds-then
        (Adds-read (on_heap (list_at (some (list_value all capacity)) i))
          (λ child. walk_child child (suc level)) (some v)
          (λ m st. rw (list_at-drop v xs i capacity all m here) refl)
          (child_adds v (suc level) (omega (arith, shallow))))
        (walk_items-Adds all capacity level (suc i) xs (drop_next_element v xs i all here)
          (omega (arith, shallow)))

  found-Adds :
      (level : ℕ) (k : Bytes) (v : Value)
      → depth (view v) < limit
      → Adds (one_string k ⊕ census (suc level) (view v)) (walk_found walk_child level (ok (k, v)))
  unfolding walk_found
  found-Adds level k v shallow = record {
    adds = (Adds-then (Adds-string k) (child_adds v (suc level) shallow)).adds;
  }

  walk_entries-Adds :
      (all : Fields) (capacity level i : ℕ) (fs : Fields)
      → drop_fields i all ≡ fs
      → depth_entries (view_fields fs) < limit
      → Adds (census_entries (suc level) (view_fields fs)) (
          for_each
            (count_fields fs)
            i
            (walk_entry walk_child (some (dict_value all capacity)) level))
  unfolding view census walk_entry
  walk_entries-Adds all capacity level i no_fields here shallow = Adds-nothing
  walk_entries-Adds all capacity level i (field k v fs) here shallow =
      subst
        (λ c. Adds c (
          for_each (count_fields (field k v fs)) i
            (walk_entry walk_child (some (dict_value all capacity)) level)))
        (⊕_assoc (one_string k) (census (suc level) (view v))
          (census_entries (suc level) (view_fields fs)))
        (Adds-then
          (Adds-read (attempt (on_heap (dict_at (some (dict_value all capacity)) i)))
            (walk_found walk_child level) (ok (k, v))
            (λ m st. rw (dict_at-drop k v fs i capacity all m here) refl)
            (found-Adds level k v (omega (arith, shallow))))
          (walk_entries-Adds all capacity level (suc i) fs (drop_next_field k v fs i all here)
            (omega (arith, shallow))))

walk-Adds :
    (fuel : ℕ) (v : Value) (level : ℕ)
    → depth (view v) < fuel
    → Adds (census level (view v)) (walk fuel (some v) level)
unfolding walk walk_kind value_string list_size dict_size view census
walk-Adds zero v level enough = absurd (omega (arith, enough))
walk-Adds (suc f) (int_value i) level enough = record {
  adds = (Adds-value level (Adds-tally count_int (λ st. count_int-adds st))).adds;
}
walk-Adds (suc f) (string_value bs owned) level enough = record {
  adds = (Adds-value level (Adds-string bs)).adds;
}
walk-Adds (suc f) (list_value xs capacity) level enough = record {
  adds =
      (Adds-value level (
        Adds-then (Adds-tally count_list (λ st. count_list-adds st)) (
          walk_items-Adds (walk f) f (walk-Adds f) xs capacity level 0 xs refl
            (omega (arith, enough))))).adds;
}
walk-Adds (suc f) (dict_value fs capacity) level enough = record {
  adds =
      (Adds-value level (
        Adds-then (Adds-tally count_dict (λ st. count_dict-adds st)) (
          walk_entries-Adds (walk f) f (walk-Adds f) fs capacity level 0 fs refl
            (omega (arith, enough))))).adds;
}

-- For a tree whose encoding has at most 2 ^ 64 - 1 bytes, walk, with more fuel than the tree is
-- deep and from statistics that are all 0, returns, the statistics are the census of the tree's
-- value, and the heap is as it was: no counter wraps around.
pub walk-census :
    (fuel : ℕ) (v : Value) (m : Memory)
    → depth (view v) < fuel
    → length (encode (view v)) ≤ size_max
    → walk fuel (some v) 0 (world m no_stats) ≡ pure tt (world m (census 0 (view v)))
walk-census fuel v m enough sized =
    (walk-Adds fuel v 0 enough).adds m no_stats (
      IsWithin-mono (no_stats ⊕ census 0 (view v)) sized (
        subst (IsWithin (length (encode (view v)))) (sym (nothing_⊕ (census 0 (view v))))
          (census-IsWithin 0 (view v))))
    ∙ ap (λ t. pure tt (world m t)) (nothing_⊕ (census 0 (view v)))
