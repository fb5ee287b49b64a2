-- ===== src/Value/Clone/Parts.antt =====
-- Cloning a string, and the cleanup where a later step fails.
use bencode.Prelude.{
  ℕ, suc, ◌+◌, ◌≡◌, inl, inr, refl, Bytes, Bool, true, false, some, [], ◌∷◌, length, if◌then◌else◌,
  arith,
}
use bencode.Status.{Error, ok, nomem}
use bencode.Exec.{pure, fail, ◌>>=◌, ◌>>◌}
use bencode.Exec.Ensures
use bencode.Exec.Ensures.{Ensures, returns, raises}
use bencode.Memory.{Memory, Heap, allocator_check, alloc, free, book, grants}
use bencode.Memory.Frees.{Frees-run, Frees-free, Frees-then}
use bencode.Value.{Value, string_value, blocks, view}
use bencode.Value.Free.{Frees-value_free}
use bencode.Value.Build.{value_free, check_out, string_new}
use bencode.Value.Build.Growth.{Kept}
use bencode.Value.Build.Nodes.{value_alloc-Ensures}
use bencode.Value.Clone.Detached.{IsDetached}

-- Nothing but the clone is live beside the `others`.
abbrev pub Cloned : Value → ℕ → Value → Memory → Type 0
Cloned v others w n = (view w ≡ view v) × IsDetached w × (n.live ≡ blocks w + others)

-- What a failure leaves.
abbrev pub Gone : ℕ → Error → Memory → Type 0
Gone others e n = (e ≡ nomem) × (n.live ≡ others)

module _ (h : Heap) where
  string_granted :
      (granted : Bool) (c : ℕ) (cs : Bytes) (m n : Memory)
      → n.live ≡ suc m.live
      → Ensures (Cloned (string_value (c ∷ cs) true) m.live) (Gone m.live) (
          (if granted then pure (string_value (c ∷ cs) true) else free >> fail nomem)
            (book granted n))
  unfolding blocks
  string_granted true c cs m n live = returns (refl, inr refl, omega (arith, live))
  string_granted false c cs m n live =
      rw (Frees-run m.live (book false n) Frees-free (omega (arith, live))) (raises (refl, refl))

  pub string_Ensures :
      (bs : Bytes) (owned : Bool) (m : Memory)
      → allocator_check h ≡ ok tt
      → Ensures
          (Cloned (string_value bs owned) m.live)
          (Gone m.live)
          (string_new h true (some bs) (length bs) m)
  unfolding string_new check_out alloc view blocks
  string_Ensures [] owned m valid = rw valid (
      Ensures.mono (value_alloc-Ensures h (string_value [] false) m)
        (λ w n (e, live). rw e (refl, inl refl, omega (arith, live))) (λ _ _ k. k))
  string_Ensures (c ∷ cs) owned m valid = rw valid (
      Ensures.bind
        {k = λ node. alloc h (length (c ∷ cs)) >>= λ granted.
          if granted then pure node else free >> fail nomem}
        (value_alloc-Ensures h (string_value (c ∷ cs) true) m)
        (λ w n (e, live).
          rw e (string_granted (grants h n.requests (length (c ∷ cs))) c cs m n live))
        (λ _ _ k. k))

-- The cleanup behind a failed clone of a child, and behind a child that could not be added.
pub drop_one :
    (w : Value) (others : ℕ) (m : Memory) (e : Error) (n : Memory)
    → m.live ≡ blocks w + others
    → Kept m e n
    → Ensures {A = Unit {0}} (λ _ u. Gone others e u) (λ _ _. ⊥) (value_free w n)
drop_one w others m e n owns (short, kept) =
    rw (Frees-run others n (Frees-value_free w) (omega (arith, kept, owns))) (returns (short, refl))

pub drop_two :
    (child w : Value) (others : ℕ) (m : Memory) (e : Error) (n : Memory)
    → m.live ≡ blocks w + (blocks child + others)
    → Kept m e n
    → Ensures {A = Unit {0}}
        (λ _ u. Gone others e u)
        (λ _ _. ⊥)
        ((value_free child >> value_free w) n)
drop_two child w others m e n owns (short, kept) =
    rw
      (Frees-run others n
        (Frees-then (blocks child) (blocks w) (Frees-value_free child) (Frees-value_free w))
        (omega (arith, kept, owns)))
      (returns (short, refl))
