-- ===== src/Value/Build/Append.antt =====
-- bencode_list_append puts the child at the end, or fails and leaves list and child as they were.
use bencode.Prelude.{ℕ, suc, ◌+◌, ◌≤◌, ◌<◌, ◌≡◌, refl, some, lt→ltb, arith}
use bencode.Prelude.Int.{size_max}
use bencode.Exec.Ensures
use bencode.Exec.Ensures.{Ensures, returns}
use bencode.Memory.{Memory, Heap}
use bencode.Value.{
  Value, Elements, list_value, no_elements, element, count_elements, blocks, blocks_elements,
}
use bencode.Value.Build.{push_element, list_append, write_cell, pointer_size}
use bencode.Value.Build.Growth.{grow_array-Ensures, Kept}
use bencode.Exec.{pure, ◌>>◌}

pub blocks-push_element :
    (xs : Elements) (child : Value)
    → blocks_elements (push_element xs child) ≡ blocks_elements xs + blocks child
unfolding blocks
blocks-push_element no_elements child = omega arith
blocks-push_element (element v xs) child = omega (arith, blocks-push_element xs child)

-- The list after the call owns the child.
pub record Appended (xs : Elements) (child : Value) (others : ℕ) (after : Value) (t : Memory)
    : Type 0 where
  pub new_cap : ℕ
  pub same : after ≡ list_value (push_element xs child) new_cap
  pub room : count_elements xs < new_cap
  pub sized : new_cap ≤ size_max
  pub owns : t.live ≡ blocks after + others

module _ (h : Heap) (xs : Elements) (capacity : ℕ) (child : Value) (others : ℕ) where
  -- A call returns, and writes within the array. On success the list has the child behind its
  -- elements and owns it; the only error is BENCODE_ERR_NOMEM, with nothing more or less live.
  pub list_append-Ensures :
      (m : Memory)
      → capacity ≤ size_max
      → m.live ≡ blocks (list_value xs capacity) + (blocks child + others)
      → Ensures
          (Appended xs child others)
          (Kept m)
          (list_append h (some (list_value xs capacity)) (some child) m)
  unfolding list_append blocks
  list_append-Ensures m small owns =
      Ensures.bind
        {k = λ new_cap.
          write_cell new_cap (count_elements xs)
          >> pure (list_value (push_element xs child) new_cap)}
        (grow_array-Ensures (suc (blocks_elements xs) + (blocks child + others)) capacity
          (count_elements xs + 1) h pointer_size m small (omega arith) (omega (arith, owns)))
        (λ new_cap t (room, below, live). rw (lt→ltb (count_elements xs) new_cap (omega arith)) (
          returns (record {
            new_cap = new_cap;
            same = refl;
            room = omega arith;
            sized = below;
            owns = omega (arith, live, blocks-push_element xs child);
          })))
        (λ _ _ k. k)
