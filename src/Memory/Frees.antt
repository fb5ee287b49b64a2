-- ===== src/Memory/Frees.antt =====
-- Actions that release a number of blocks, and free nothing that is not allocated.
use bencode.Prelude.{ℕ, suc, ◌+◌, ◌≡◌, Bool, true, false, if◌then◌else◌, arith}
use bencode.Exec.{Exec, pure, ◌>>◌}
use bencode.Memory.{Memory, free, free_if}

abbrev pub memory : ℕ → ℕ → Memory
memory requests live = record { requests = requests; live = live }

-- The action releases `n` blocks, whatever else is live.
pub record Frees (n : ℕ) (action : Exec Memory (Unit {0})) : Type 0 where
  pub frees :
      (requests others : ℕ)
      → action (memory requests (n + others)) ≡ pure tt (memory requests others)

pub Frees-nothing : Frees 0 (pure tt)
Frees-nothing = record {
  frees = λ requests others. let e : 0 + others ≡ others = omega arith in rw e;
}

pub Frees-free : Frees 1 free
unfolding free
Frees-free = record {
  frees = λ requests others. let e : 1 + others ≡ suc others = omega arith in rw e;
}

pub Frees-free_if : (present : Bool) → Frees (if present then 1 else 0) (free_if present)
unfolding free_if
Frees-free_if true = Frees-free
Frees-free_if false = Frees-nothing

pub Frees-then :
    (n k : ℕ) {a b : Exec Memory (Unit {0})} → Frees n a → Frees k b → Frees (n + k) (a >> b)
Frees-then n k fa fb = record {
  frees = λ requests others.
      let e : n + k + others ≡ n + (k + others) = omega arith in
      rw (e, fa.frees requests (k + others), fb.frees requests others);
}

pub Frees-run :
    {n : ℕ} {a : Exec Memory (Unit {0})} (others : ℕ) (m : Memory)
    → Frees n a
    → m.live ≡ n + others
    → a m ≡ pure tt (memory m.requests others)
Frees-run {n} {a} others m fa e =
    let same : m ≡ memory m.requests (n + others) =
      λ i. record { requests = m.requests; live = e i } in
    rw same (fa.frees m.requests others)
