-- ===== src/Value/Build/Growth.antt =====
-- grow_array makes room, or fails and leaves the array as it was.
use bencode.Prelude.{
  ℕ, suc, ◌+◌, ◌/◌, ◌≤◌, ◌≡◌, refl, Bool, true, false, not, ltb, leb, ◌==◌, if◌then◌else◌, ltb→le,
  arith,
}
use bencode.Prelude.Int.{size_max}
use bencode.Prelude.Word.{mul64}
use bencode.Status.{Error, nomem}
use bencode.Exec.{pure, fail, ◌>>=◌, ◌>>◌}
use bencode.Exec.Ensures
use bencode.Exec.Ensures.{Ensures, returns, raises}
use bencode.Memory.{Memory, Heap, alloc, grants, book, block, free_if}
use bencode.Memory.Growth.{double_while-Ensures}
use bencode.Memory.Frees.{Frees-free_if, Frees-run}
use bencode.Value.Build.{grow_array}

-- Nothing was allocated or released.
abbrev pub Kept : Memory → Error → Memory → Type 0
Kept m e t = (e ≡ nomem) × (t.live ≡ m.live)

module _ (others capacity needed : ℕ) where
  -- The array of the new capacity has taken the place of the old one.
  abbrev pub MadeRoom : ℕ → Memory → Type 0
  MadeRoom new_cap t = (needed ≤ new_cap) × (new_cap ≤ size_max) × (t.live ≡ block new_cap + others)

  one_block : {c : ℕ} → 1 ≤ c → suc others ≡ block c + others
  one_block {c} h = ground arith

  replace-Ensures :
      (granted : Bool) (new_cap : ℕ) (m : Memory)
      → 1 ≤ needed
      → m.live ≡ block capacity + others
      → needed ≤ new_cap
      → new_cap ≤ size_max
      → Ensures MadeRoom (Kept m) (
          (if not granted then fail nomem else (free_if (ltb 0 capacity) >> pure new_cap))
            (book granted m))
  replace-Ensures false new_cap m positive owns room below = raises (refl, refl)
  replace-Ensures true new_cap m positive owns room below =
      let e : suc m.live ≡ block capacity + suc others = omega (arith, owns) in
      rw (Frees-run (suc others) (book true m) (Frees-free_if (ltb 0 capacity)) e)
        (returns (room, below, one_block (omega arith)))

  pub grow_array-Ensures :
      (h : Heap) (element_size : ℕ) (m : Memory)
      → capacity ≤ size_max
      → 1 ≤ needed
      → m.live ≡ block capacity + others
      → Ensures MadeRoom (Kept m) (grow_array h element_size capacity needed m)
  unfolding grow_array alloc
  grow_array-Ensures h element_size m small positive owns =
      Ensures.branch_at (leb needed capacity) _ _
        (λ enough. returns (ground (arith, enough), small, owns))
        (λ _.
          Ensures.bind
            {k = λ new_cap.
              if ltb (size_max / element_size) new_cap
              then fail nomem
              else (alloc h (mul64 new_cap element_size) >>= λ granted.
                  if not granted then fail nomem else (free_if (ltb 0 capacity) >> pure new_cap))}
            (double_while-Ensures (λ c. ltb c needed) m (if capacity == 0 then 4 else capacity)
              (ground arith) (ground arith))
            (λ new_cap t (done, above, below, same). rw same (
              Ensures.branch_at (ltb (size_max / element_size) new_cap) _ _
                (λ _. raises (refl, refl))
                λ _.
                  replace-Ensures (grants h m.requests (mul64 new_cap element_size)) new_cap m
                    positive owns (ltb→le new_cap needed done) below))
            (λ e t (n, same). (n, rw same refl)))
