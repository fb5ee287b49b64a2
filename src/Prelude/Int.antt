-- ===== src/Prelude/Int.antt =====
-- Signed integers over the native numbers, and the range of `int64_t`.
use Prim.Native.Nat.{ℕ, ◌^◌, ◌-◌, ◌≤◌}

-- `negsuc n` is -(n + 1).
pub data ℤ : Type 0 where
  pos : ℕ → ℤ
  negsuc : ℕ → ℤ

abbrev pub int64_max : ℕ
int64_max = 2 ^ 63 - 1

abbrev pub size_max : ℕ
size_max = 2 ^ 64 - 1

-- -2 ^ 63 ≤ i ≤ 2 ^ 63 - 1.
abbrev pub IsInt64 : ℤ → Type 0
IsInt64 (pos n) = n ≤ int64_max
IsInt64 (negsuc n) = n ≤ int64_max
