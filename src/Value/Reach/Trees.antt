-- ===== src/Value/Reach/Trees.antt =====
-- The trees that the builders can make.
use bencode.Prelude.{ℕ, ◌+◌, ◌≡◌, refl, sym, subst, Bytes, true, some, [], ◌∷◌, length, arith}
use bencode.Prelude.Int.{ℤ, IsInt64}
use bencode.Status.{Status, Error, ok, err, invalid_arg}
use bencode.Grammar.{IsSized}
use bencode.Exec.{Run, returned, ◌>>◌}
use bencode.Exec.Ensures
use bencode.Exec.Ensures.{Ensures, returns, raises, Ensures-ok}
use bencode.Memory.{Memory, Heap, allocator_check}
use bencode.Value.{
  Value, int_value, string_value, list_value, dict_value, no_elements, no_fields, view, blocks,
}
use bencode.Value.Build.{
  check_out, value_alloc, int_new, string_new, list_new, dict_new, list_append,
}
use bencode.Value.Build.Nodes.{value_alloc-Ensures}
use bencode.Value.Build.Append.{list_append-Ensures}
use bencode.Value.Dict.{dict_set}
use bencode.Value.Dict.Set.{dict_set-Ensures}
use bencode.Grammar.{str}
use bencode.Value.Clone.Parts.{string_Ensures}
use bencode.Value.Reach.{IsWell, push_element-IsWell, count-push_element, Updated-IsWell}

abbrev failed : Error → Memory → Run Memory Value
failed x m = returned (err x) m

refused : (x : Error) (w : Value) (m n : Memory) → failed x m ≡ returned (ok w) n → ⊥
refused x w m n e = cc

module _ (h : Heap) where
  -- A new node is what was asked for.
  node_at :
      (st : Status) (node : Value) (m : Memory)
      → allocator_check h ≡ st
      → Ensures (λ w _. w ≡ node) (λ _ _. Unit {0}) ((check_out h true >> value_alloc h node) m)
  unfolding check_out
  node_at (err e) node m same = rw same (raises tt)
  node_at (ok _) node m same =
      rw same (Ensures.mono (value_alloc-Ensures h node m) (λ _ _ (e, _). e) (λ _ _ _. tt))

  node_made :
      (node w : Value) (m n : Memory)
      → (check_out h true >> value_alloc h node) m ≡ returned (ok w) n
      → w ≡ node
  node_made node w m n e = Ensures-ok (node_at (allocator_check h) node m refl) e

  str_IsWell : (w : Value) (bs : Bytes) → IsSized bs → view w ≡ str bs → IsWell w
  unfolding view
  str_IsWell (int_value i) bs sized e = cc
  str_IsWell (string_value cs owned) bs sized e = subst IsSized (cc) sized
  str_IsWell (list_value xs capacity) bs sized e = cc
  str_IsWell (dict_value fs capacity) bs sized e = cc

  string_at :
      (st : Status) (bs : Bytes) (w : Value) (m n : Memory)
      → allocator_check h ≡ st
      → IsSized bs
      → string_new h true (some bs) (length bs) m ≡ returned (ok w) n
      → IsWell w
  unfolding string_new check_out view
  string_at (err x) [] w m n same sized e = absurd (refused x w m n (rw same at e))
  string_at (err x) (c ∷ cs) w m n same sized e = absurd (refused x w m n (rw same at e))
  string_at (ok _) bs w m n same sized e =
      str_IsWell w bs sized (Ensures-ok (string_Ensures h bs true m same) e).0

-- The trees that a program can make of the builders' results, each call with any memory in which
-- the trees that it is given are live.
pub data Reachable (h : Heap) : Value → Type 0 where
  int_made :
      (i : ℤ) {w : Value} (m n : Memory)
      → IsInt64 i
      → int_new h true i m ≡ returned (ok w) n
      → Reachable h w
  string_made :
      (bs : Bytes) {w : Value} (m n : Memory)
      → IsSized bs
      → string_new h true (some bs) (length bs) m ≡ returned (ok w) n
      → Reachable h w
  list_made : {w : Value} (m n : Memory) → list_new h true m ≡ returned (ok w) n → Reachable h w
  dict_made : {w : Value} (m n : Memory) → dict_new h true m ≡ returned (ok w) n → Reachable h w
  list_appended :
      (v child : Value) {w : Value} (m n : Memory) (others : ℕ)
      → Reachable h v
      → Reachable h child
      → m.live ≡ blocks v + (blocks child + others)
      → list_append h (some v) (some child) m ≡ returned (ok w) n
      → Reachable h w
  dict_changed :
      (v child : Value) {w : Value} (key : Bytes) (m n : Memory) (others : ℕ)
      → Reachable h v
      → Reachable h child
      → IsSized key
      → m.live ≡ blocks v + (blocks child + others)
      → dict_set h (some v) (some key) (length key) (some child) m ≡ returned (ok w) n
      → Reachable h w

module _ (h : Heap) where
  appended-IsWell :
      (v child w : Value) (m n : Memory) (others : ℕ)
      → IsWell v
      → IsWell child
      → m.live ≡ blocks v + (blocks child + others)
      → list_append h (some v) (some child) m ≡ returned (ok w) n
      → IsWell w
  unfolding list_append
  appended-IsWell (list_value xs capacity) child w m n others (small, room, ws) x owns e =
      let a = Ensures-ok (list_append-Ensures h xs capacity child others m small owns) e in
      subst IsWell (sym a.same) (
        a.sized,
        omega (arith, a.room, count-push_element xs child),
        push_element-IsWell xs child ws x,
      )
  appended-IsWell (int_value i) child w m n others v x owns e = absurd (refused invalid_arg w m n e)
  appended-IsWell (string_value bs owned) child w m n others v x owns e =
      absurd (refused invalid_arg w m n e)
  appended-IsWell (dict_value fs capacity) child w m n others v x owns e =
      absurd (refused invalid_arg w m n e)

  changed-IsWell :
      (v child w : Value) (key : Bytes) (m n : Memory) (others : ℕ)
      → IsWell v
      → IsWell child
      → IsSized key
      → m.live ≡ blocks v + (blocks child + others)
      → dict_set h (some v) (some key) (length key) (some child) m ≡ returned (ok w) n
      → IsWell w
  unfolding dict_set
  changed-IsWell (dict_value fs capacity) child w key m n others (small, room, o, ws) x sized owns
        e =
      Updated-IsWell fs key child others w n ws sized x (
        Ensures-ok
          (dict_set-Ensures fs key child others h capacity m (length key) o room small owns) e)
  changed-IsWell (int_value i) child w key m n others v x sized owns e =
      absurd (refused invalid_arg w m n e)
  changed-IsWell (string_value bs owned) child w key m n others v x sized owns e =
      absurd (refused invalid_arg w m n e)
  changed-IsWell (list_value xs capacity) child w key m n others v x sized owns e =
      absurd (refused invalid_arg w m n e)

  -- The invariant of the builders: in every tree that they can make, integers fit int64_t, strings
  -- fit size_t, elements and entries stand within their arrays, and keys ascend strictly.
  pub Reachable-IsWell : (v : Value) → Reachable h v → IsWell v
  unfolding int_new list_new dict_new
  Reachable-IsWell v (int_made i m n fits e) =
      subst IsWell (sym (node_made h (int_value i) v m n e)) fits
  Reachable-IsWell v (string_made bs m n sized e) =
      string_at h (allocator_check h) bs v m n refl sized e
  Reachable-IsWell v (list_made m n e) =
      subst IsWell (sym (node_made h (list_value no_elements 0) v m n e))
        (omega arith, omega arith, tt)
  Reachable-IsWell v (dict_made m n e) =
      subst IsWell (sym (node_made h (dict_value no_fields 0) v m n e))
        (omega arith, omega arith, tt, tt)
  Reachable-IsWell v (list_appended u child m n others r c owns e) =
      appended-IsWell u child v m n others (Reachable-IsWell u r) (Reachable-IsWell child c) owns e
  Reachable-IsWell v (dict_changed u child key m n others r c sized owns e) =
      changed-IsWell u child v key m n others (Reachable-IsWell u r) (Reachable-IsWell child c)
        sized owns e
