-- ===== src/Base/Digits.antt =====
-- Digits of a number in a base, the lowest first: `strconv.Itoa` and the division loop of base58.
use mathlib.Core.List.{reverse}
use Prim.Native.Nat.{ℕ, zero, suc, ◌+◌, ◌*◌, ◌/◌, ◌%◌, ◌<◌, ◌≤◌}
use mathlib.Core.Path.{◌≡◌}
use mathlib.Core.Logic.{inl, inr}
use mathlib.Core.List.{List, [], ◌∷◌, map}
use native.Mathlib.Omega.{arith}
use native.Mathlib.Nat.{div-add-mod, mul-le-mul_right}
use stratum_stats.Base.Tests.{◌==◌, if◌then◌else◌, Bool-cases}
use stratum_stats.Base.Text.{Bytes, bytes}
use stratum_stats.Base.Int.{ℤ, pos, negsuc}

-- `for x > 0 { x, d = x / base, x % base; ... }`, with fuel
unfoldable pub digits : ℕ → ℕ → ℕ → List ℕ
digits base zero x = []
digits base (suc fuel) x =
    let rest = digits base fuel (x / base) in if x == 0 then [] else (x % base) ∷ rest

pub digits_value : ℕ → List ℕ → ℕ
digits_value base [] = 0
digits_value base (d ∷ ds) = d + base * digits_value base ds

-- With more fuel than the number the loop runs to its end, and the digits are the number's.
pub digits_value-digits :
    (base fuel x : ℕ) → 1 < base → x < fuel → digits_value base (digits base fuel x) ≡ x
unfolding digits digits_value
digits_value-digits base zero x h k = absurd (omega arith)
digits_value-digits base (suc fuel) x h k = elim (Bool-cases (x == 0)) [
  | inl e ↦ ground arith
  | inr e ↦
      let split = div-add-mod x base in
      let twice : 2 * (x / base) ≤ base * (x / base) = mul-le-mul_right (x / base) h in
      let smaller : x / base < x = ground (arith, split, twice) in
      let rest = digits_value-digits base fuel (x / base) h (omega arith) in
      rw (e, rest) (omega (arith, split))
]

-- strconv.Itoa
unfoldable pub decimal_ℕ : ℕ → Bytes
unfolding digits
decimal_ℕ n = if n == 0 then bytes "0" else reverse (map (λ d. 48 + d) (digits 10 (suc n) n))

unfoldable pub decimal : ℤ → Bytes
unfolding decimal_ℕ
decimal (pos n) = decimal_ℕ n
decimal (negsuc n) = b'-' ∷ decimal_ℕ (suc n)
