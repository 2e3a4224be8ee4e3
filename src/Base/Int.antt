-- ===== src/Base/Int.antt =====
-- Go's signed `int`, where a value may be negative (it comes from JSON or from a pool).
use Prim.Native.Nat.{ℕ}
use mathlib.Core.Bool.{Bool, true, false}
use stratum_stats.Base.Tests.{leb, ltb, ◌==◌}

-- `negsuc n` is -(n + 1).
pub data ℤ : Type 0 where
  pos : ℕ → ℤ
  negsuc : ℕ → ℤ

-- comparisons with a constant that is not negative
abbrev pub eq_ℕ : ℤ → ℕ → Bool
eq_ℕ (pos n) k = n == k
eq_ℕ (negsuc n) k = false

abbrev pub leb_ℕ : ℤ → ℕ → Bool
leb_ℕ (pos n) k = leb n k
leb_ℕ (negsuc n) k = true

abbrev pub ltb_ℕ : ℤ → ℕ → Bool
ltb_ℕ (pos n) k = ltb n k
ltb_ℕ (negsuc n) k = ltb 0 k

-- the value, where a test has shown that it is not negative
abbrev pub to_ℕ : ℤ → ℕ
to_ℕ (pos n) = n
to_ℕ (negsuc n) = 0
