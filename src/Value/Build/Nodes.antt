-- ===== src/Value/Build/Nodes.antt =====
-- A constructor returns its node in one new block, or fails and allocates nothing.
use bencode.Prelude.{suc, ◌≡◌, refl, Bool, true, false, if◌then◌else◌}
use bencode.Status.{ok, nomem}
use bencode.Exec.{pure, fail, ◌>>◌}
use bencode.Exec.Ensures.{Ensures, returns, raises}
use bencode.Memory.{Memory, Heap, allocator_check, alloc, book, grants}
use bencode.Value.{Value}
use bencode.Value.Build.{value_size, value_alloc, check_out}
use bencode.Value.Build.Growth.{Kept}

-- A new node, and one more block.
abbrev pub Made : Value → Memory → Value → Memory → Type 0
Made node m v n = (v ≡ node) × (n.live ≡ suc m.live)

module _ (h : Heap) where
  granted_Ensures :
      (granted : Bool) (node : Value) (m : Memory)
      → Ensures
          (Made node m)
          (Kept m)
          ((if granted then pure node else fail nomem) (book granted m))
  granted_Ensures false node m = raises (refl, refl)
  granted_Ensures true node m = returns (refl, refl)

  pub value_alloc-Ensures :
      (node : Value) (m : Memory) → Ensures (Made node m) (Kept m) (value_alloc h node m)
  unfolding value_alloc alloc
  value_alloc-Ensures node m = granted_Ensures (grants h m.requests value_size) node m

  pub checked_Ensures :
      (node : Value) (m : Memory)
      → allocator_check h ≡ ok tt
      → Ensures (Made node m) (Kept m) ((check_out h true >> value_alloc h node) m)
  unfolding check_out
  checked_Ensures node m valid = rw valid (value_alloc-Ensures node m)
