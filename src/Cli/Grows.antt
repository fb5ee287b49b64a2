-- ===== src/Cli/Grows.antt =====
-- grow_buf doubles the capacity of the buffer, or frees the buffer.
use bencode.Prelude.{
  ℕ, suc, ◌+◌, ◌≤◌, ◌<◌, ◌≡◌, refl, inl, inr, Bool, true, false, not, Bool-cases, ltb, ltb→le, ◌/◌,
  arith, if◌then◌else◌,
}
use bencode.Prelude.Int.{size_max}
use bencode.Prelude.Word.{mul64}
use bencode.Status.{Error, nomem}
use bencode.Exec.{◌>>◌, pure, fail}
use bencode.Exec.Ensures.{Ensures, returns, raises}
use bencode.Memory.{Memory, free}
use bencode.Memory.Frees.{Frees-run, Frees-free}
use bencode.Cli.{Platform, realloc, grow_buf}

-- The capacity behind a call that grew the buffer, and what is live beside the buffer.
abbrev pub Grew : ℕ → ℕ → ℕ → Memory → Type 0
Grew cap others new_cap m = (cap < new_cap) × (new_cap ≤ size_max) × (m.live ≡ suc others)

abbrev pub Lost : ℕ → Error → Memory → Type 0
Lost others e m = m.live ≡ others

module _ (others : ℕ) where
  pub free_then_fail :
      {A : Type 0} {P : A → Memory → Type 0} (e : Error) (m : Memory)
      → m.live ≡ suc others
      → Ensures P (Lost others) ((free >> fail {A = A} e) m)
  free_then_fail e m owns = rw (Frees-run others m Frees-free (omega (arith, owns))) (raises refl)

module _ {F S : Type 0} (os : Platform F S) (others : ℕ) where
  realloc-Ensures :
      (granted : Bool) (capacity : ℕ) (m : Memory)
      → 1 ≤ capacity
      → capacity ≤ size_max / 2
      → m.live ≡ suc others
      → Ensures
          (Grew capacity others)
          (Lost others)
          ((if not granted then free >> fail nomem else pure (mul64 capacity 2)) m)
  realloc-Ensures false capacity m positive small owns = free_then_fail others nomem m owns
  realloc-Ensures true capacity m positive small owns =
      returns {a = mul64 capacity 2} (omega arith, omega arith, owns)

  pub grow_buf-Ensures :
      (capacity : ℕ) (m : Memory)
      → 1 ≤ capacity
      → m.live ≡ suc others
      → Ensures (Grew capacity others) (Lost others) (grow_buf os capacity m)
  unfolding grow_buf realloc
  grow_buf-Ensures capacity m positive owns = elim (Bool-cases (ltb (size_max / 2) capacity)) [
    | inl over ↦ rw over (free_then_fail others nomem m owns)
    | inr small ↦ rw small (
        realloc-Ensures (os.malloc m.requests (mul64 capacity 2)) capacity
          (record m { requests = m.requests + 1 }) positive (ltb→le (size_max / 2) capacity small)
          owns)
  ]
