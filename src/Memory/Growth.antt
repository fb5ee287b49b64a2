-- ===== src/Memory/Growth.antt =====
-- The doubling loop ends within its fuel, without overflow, at a capacity that is large enough.
use bencode.Prelude.{
  ℕ, zero, suc, ◌*◌, ◌/◌, ◌≤◌, ◌<◌, ◌≡◌, refl, Bool, false, ltb, ltb→le, tests, arith,
}
use bencode.Prelude.Int.{size_max}
use bencode.Prelude.Word.{mul64}
use bencode.Status.{Error, nomem}
use bencode.Exec.Ensures
use bencode.Exec.Ensures.{Ensures, returns, raises}
use bencode.Memory.{double_while, growth_fuel}

-- The capacity after `f` rounds.
abbrev doubled : ℕ → ℕ → ℕ
doubled zero c = c
doubled (suc f) c = doubled f (c * 2)

doubled_mono : (f a b : ℕ) → a ≤ b → doubled f a ≤ doubled f b
doubled_mono zero a b h = h
doubled_mono (suc f) a b h = doubled_mono f (a * 2) (b * 2) (omega arith)

mul64_exact : (c : ℕ) → ltb (size_max / 2) c ≡ false → mul64 c 2 ≡ c * 2
mul64_exact c room = grind (tests)

module _ {S : Type 0} (short : ℕ → Bool) (s : S) where
  abbrev pub Grown : ℕ → ℕ → S → Type 0
  Grown c new_cap t = (short new_cap ≡ false) × (c ≤ new_cap) × (new_cap ≤ size_max) × (t ≡ s)

  abbrev pub Unchanged : Error → S → Type 0
  Unchanged e t = (e ≡ nomem) × (t ≡ s)

  doubling_Ensures :
      (f c : ℕ)
      → c ≤ size_max
      → size_max < doubled f c
      → Ensures (Grown c) Unchanged (double_while short f c s)
  unfolding double_while
  doubling_Ensures zero c small enough = absurd omega arith
  doubling_Ensures (suc f) c small enough =
      Ensures.branch (short c)
        (λ _.
          Ensures.branch (ltb (size_max / 2) c) (λ _. raises (refl, refl))
            λ room.
              let fits : c * 2 ≤ size_max = omega (tests, ltb→le (size_max / 2) c room) in
              rw (mul64_exact c room) (
                Ensures.mono (doubling_Ensures f (c * 2) fits enough)
                  (λ _ t (done, above, below, same). (done, omega arith, below, same))
                  (λ _ _ u. u)))
        (λ done. returns (done, omega arith, small, refl))

  -- From a capacity that is not 0 and at most SIZE_MAX, the doubling loop ends within its fuel,
  -- whatever capacity is short: at one that is not short, not below the first and at most
  -- SIZE_MAX, or with BENCODE_ERR_NOMEM. The state is as it was.
  pub double_while-Ensures :
      (c : ℕ)
      → 1 ≤ c
      → c ≤ size_max
      → Ensures (Grown c) Unchanged (double_while short growth_fuel c s)
  double_while-Ensures c positive small =
      doubling_Ensures growth_fuel c small (omega (arith, doubled_mono growth_fuel 1 c positive))
