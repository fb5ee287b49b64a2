-- ===== src/Value/Dict/Set.antt =====
-- bencode_dict_set keeps the entries sorted and maps the key to the child, or fails and leaves
-- dictionary and child as they were.
use bencode.Prelude.{
  ℕ, zero, suc, ◌+◌, ◌≤◌, ◌≡◌, refl, Bytes, Bool, true, false, some, ltb, lt→ltb, length,
  if◌then◌else◌, arith,
}
use bencode.Prelude.Int.{size_max}
use bencode.Status.{nomem}
use bencode.Exec.{pure, fail, or_else, ◌>>◌, ◌>>=◌}
use bencode.Exec.Ensures
use bencode.Exec.Ensures.{Ensures, returns, raises}
use bencode.Memory.{Memory, Heap, alloc, book, grants, block, free_if}
use bencode.Memory.Frees.{Frees-free_if, Frees-run}
use bencode.Value.{Value, Fields, dict_value, no_fields, field, count_fields, blocks, blocks_fields}
use bencode.Value.Free.{Frees-value_free}
use bencode.Value.Build.{grow_array, write_cell, entry_size}
use bencode.Value.Build.Growth.{grow_array-Ensures, Kept}
use bencode.Value.Dict.{
  key_at, value_at, insert_at, replace_at, copy_key, replace_value, insert_value, set_at, Place,
  dict_set,
}
use bencode.Value.Dict.Search.{IsOrdered, Finds, found, missing, Below, Above, dict_search-Finds}
use bencode.Value.Dict.Edits.{
  IsUpdate, insert_at-IsUpdate, replace_at-IsUpdate, insert_at-IsOrdered, replace_at-IsOrdered,
  blocks-insert_at, blocks-replace_at, count-insert_at, count-replace_at,
}

value_at_total :
    (fs : Fields) (i : ℕ) (k : Bytes)
    → key_at fs i ≡ some k
    → (v : Value) × (value_at fs i ≡ some v)
value_at_total no_fields i k e = cc
value_at_total (field j v fs) zero k e = (v, refl)
value_at_total (field j v fs) (suc i) k e = value_at_total fs i k e

block_full : (n : ℕ) → ltb 0 n ≡ true → block n ≡ 1
block_full n t = rw t

block_none : (n : ℕ) → ltb 0 n ≡ false → block n ≡ 0
block_none n t = rw t

module _ (h : Heap) (key : Bytes) where
  copied-Ensures :
      (granted : Bool) (m : Memory)
      → Ensures
          (λ (_ : Unit {0}) t. t.live ≡ suc m.live)
          (Kept m)
          ((if granted then pure tt else fail nomem) (book granted m))
  copied-Ensures false m = raises (refl, refl)
  copied-Ensures true m = returns refl

  copy_key-Ensures :
      (m : Memory)
      → Ensures (λ _ t. t.live ≡ block (length key) + m.live) (Kept m) (copy_key h key m)
  unfolding copy_key alloc
  copy_key-Ensures m =
      Ensures.branch_at (ltb 0 (length key)) _ _
        (λ t.
          Ensures.mono (copied-Ensures (grants h m.requests (length key)) m)
            (λ _ u live. omega (arith, live, block_full (length key) t)) (λ _ _ k. k))
        (λ t. returns (omega (arith, block_none (length key) t)))

module _ (fs : Fields) (key : Bytes) (child : Value) (others : ℕ) where
  -- Where the child was put.
  pub data Edit : Fields → Type 0 where
    replaced : (i : ℕ) → key_at fs i ≡ some key → Edit (replace_at i child fs)
    inserted :
        (i : ℕ)
        → i ≤ count_fields fs
        → Below fs key i
        → Above fs key i
        → Edit (insert_at i key child fs)

  -- The dictionary after the call owns the child and a copy of the key.
  pub record Updated (after : Value) (t : Memory) : Type 0 where
    pub fields : Fields
    pub new_cap : ℕ
    pub same : after ≡ dict_value fields new_cap
    pub edit : Edit fields
    pub update : IsUpdate key child fs fields
    pub ordered : IsOrdered fields
    pub room : count_fields fields ≤ new_cap
    pub sized : new_cap ≤ size_max
    pub owns : t.live ≡ blocks after + others

  module _ (h : Heap) (capacity : ℕ) (m : Memory) where
    abbrev Owns : Type 0
    Owns = m.live ≡ blocks (dict_value fs capacity) + (blocks child + others)

    replace_value-Ensures :
        (i : ℕ)
        → IsOrdered fs
        → count_fields fs ≤ capacity
        → capacity ≤ size_max
        → Owns
        → key_at fs i ≡ some key
        → Ensures Updated (Kept m) (replace_value h fs capacity i child m)
    unfolding replace_value blocks
    replace_value-Ensures i ordered room small owns e =
        let (old, v) = value_at_total fs i key e in
        let b = blocks-replace_at key child i fs old v in
        let split : m.live
            ≡ blocks old + (suc (blocks_fields (replace_at i child fs) + block capacity) + others) =
          omega (arith, owns, b) in
        rw
          (
            v,
            Frees-run (suc (blocks_fields (replace_at i child fs) + block capacity) + others) m
                (Frees-value_free old) split,
          )
          (returns (record {
            fields = replace_at i child fs;
            new_cap = capacity;
            same = refl;
            edit = replaced i e;
            update = replace_at-IsUpdate key child i fs e;
            ordered = replace_at-IsOrdered key child i fs ordered;
            room = omega (arith, room, count-replace_at key child i fs);
            sized = small;
            owns = refl;
          }))

    insert_value-Ensures :
        (i : ℕ)
        → IsOrdered fs
        → capacity ≤ size_max
        → Owns
        → i ≤ count_fields fs
        → Below fs key i
        → Above fs key i
        → Ensures Updated (Kept m) (insert_value h fs capacity i key child m)
    unfolding insert_value blocks
    insert_value-Ensures i ordered small owns le below above =
        Ensures.bind
          {k = λ _.
            or_else (grow_array h entry_size capacity (count_fields fs + 1))
              (free_if (ltb 0 (length key)))
            >>= λ new_cap.
                write_cell new_cap (count_fields fs)
                >> pure (dict_value (insert_at i key child fs) new_cap)}
          (copy_key-Ensures h key m)
          (λ _ t live.
            Ensures.bind
              {k = λ new_cap.
                write_cell new_cap (count_fields fs)
                >> pure (dict_value (insert_at i key child fs) new_cap)}
              (Ensures.clean {c = free_if (ltb 0 (length key))}
                (grow_array-Ensures
                  (block (length key) + suc (blocks_fields fs) + (blocks child + others)) capacity
                  (count_fields fs + 1) h entry_size t small (omega arith)
                  (omega (arith, live, owns)))
                (λ e u (n, kept).
                  rw
                    (Frees-run m.live u (Frees-free_if (ltb 0 (length key)))
                      (omega (arith, kept, live)))
                    (returns (n, refl))))
              (λ new_cap u (room, sized, live').
                rw (lt→ltb (count_fields fs) new_cap (omega arith)) (
                  returns (record {
                    fields = insert_at i key child fs;
                    new_cap = new_cap;
                    same = refl;
                    edit = inserted i le below above;
                    update = insert_at-IsUpdate key child i fs;
                    ordered = insert_at-IsOrdered key child i fs ordered below above;
                    room = omega (arith, count-insert_at key child i fs);
                    sized = sized;
                    owns = omega (arith, live', blocks-insert_at key child i fs);
                  })))
              (λ _ _ k. k))
          (λ _ _ k. k)

    set_at-Ensures :
        (place : Place)
        → IsOrdered fs
        → count_fields fs ≤ capacity
        → capacity ≤ size_max
        → Owns
        → Finds fs key place
        → Ensures Updated (Kept m) (set_at h fs capacity key child place m)
    unfolding set_at
    set_at-Ensures _ o room small owns (found {i} e) = replace_value-Ensures i o room small owns e
    set_at-Ensures _ o room small owns (missing {i} le below above) =
        insert_value-Ensures i o small owns le below above

    -- With ascending keys and the entries within the array, a call returns, and accesses nothing
    -- outside the array. On success the keys ascend, the key maps to the child and every other key
    -- to what it mapped to, and what is live is the new dictionary and the rest; the only error is
    -- BENCODE_ERR_NOMEM, with nothing more or less live.
    pub dict_set-Ensures :
        (key_len : ℕ)
        → IsOrdered fs
        → count_fields fs ≤ capacity
        → capacity ≤ size_max
        → Owns
        → Ensures Updated
            (Kept m)
            (dict_set h (some (dict_value fs capacity)) (some key) key_len (some child) m)
    unfolding dict_set
    dict_set-Ensures key_len o room small owns =
        Ensures.bind {k = set_at h fs capacity key child}
          (dict_search-Finds fs key m o (omega arith))
          (λ place t (finds, same). rw same (set_at-Ensures place o room small owns finds))
          (λ e t no. absurd no)
