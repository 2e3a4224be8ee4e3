-- ===== src/Base/Floats.antt =====
-- The operations of Go's float64 that the program uses, with those of package math. Their rounding is
-- not modelled: a theorem that depends on it names the law that it needs.
use Prim.Native.Nat.{ℕ}
use mathlib.Core.Bool.{Bool}
use stratum_stats.Base.Int.{ℤ}

pub record Float : Type 1 where
  pub F : Type 0
  -- float64(n); a decimal literal is the quotient of two such numbers
  pub of_ℕ : ℕ → F
  pub add : F → F → F
  pub sub : F → F → F
  pub mul : F → F → F
  pub div : F → F → F
  pub eq : F → F → Bool
  pub ltb : F → F → Bool
  pub leb : F → F → Bool
  -- neither NaN nor an infinity
  pub finite : F → Bool
  -- math.Min, math.Max, math.Round, math.Pow10, and `int(math.Ceil(x))`
  pub min : F → F → F
  pub max : F → F → F
  pub nearest : F → F
  pub pow10 : ℕ → F
  pub ceil : F → ℤ
