-- ===== src/Base/Hex.antt =====
-- encoding/hex: the decoder takes both cases of a digit and refuses a text of odd length.
use Prim.Native.Nat.{ℕ, ◌+◌, ◌-◌, ◌*◌, ◌/◌, ◌%◌, ◌<◌}
use mathlib.Core.Path.{◌≡◌, refl}
use mathlib.Core.Bool.{◌&&◌}
use mathlib.Core.Option.{Option, none, some}
use mathlib.Core.List.{[], ◌∷◌}
use native.Mathlib.Omega.{arith}
use stratum_stats.Base.Tests.{leb, if◌then◌else◌}
use stratum_stats.Base.Lists.{All}
use stratum_stats.Base.Text.{Bytes}

abbrev pub IsByte : ℕ → Type 0
IsByte b = b < 256

hex_digit : ℕ → ℕ
hex_digit d = if leb d 9 then 48 + d else 87 + d

pub hex_value : ℕ → Option ℕ
hex_value c =
    if leb 48 c && leb c 57
    then some (c - 48)
    else if leb 97 c && leb c 102
    then some (c - 87)
    else if leb 65 c && leb c 70
    then some (c - 55)
    else none

-- hex.EncodeToString
unfoldable pub hex_encode : Bytes → Bytes
unfolding hex_digit
hex_encode [] = []
hex_encode (b ∷ bs) = hex_digit (b / 16) ∷ hex_digit (b % 16) ∷ hex_encode bs

pair_value : Option ℕ → Option ℕ → Option Bytes → Option Bytes
pair_value (some hi) (some lo) (some rest) = some ((16 * hi + lo) ∷ rest)
pair_value (some hi) (some lo) none = none
pair_value (some hi) none rest = none
pair_value none lo rest = none

-- hex.DecodeString
unfoldable pub hex_decode : Bytes → Option Bytes
unfolding hex_value pair_value
hex_decode [] = some []
hex_decode (h ∷ []) = none
hex_decode (h ∷ l ∷ rest) = pair_value (hex_value h) (hex_value l) (hex_decode rest)

hex_digit_value : (d : ℕ) → d < 16 → hex_value (hex_digit d) ≡ some d
unfolding hex_value hex_digit
hex_digit_value d h = ground arith

-- What is encoded is decoded to the same bytes.
pub hex_decode-encode : (bs : Bytes) → All IsByte bs → hex_decode (hex_encode bs) ≡ some bs
unfolding hex_encode hex_decode
hex_decode-encode [] h = refl
hex_decode-encode (b ∷ bs) h =
    rw
      (
        hex_digit_value (b / 16) (omega arith),
        hex_digit_value (b % 16) (omega arith),
        hex_decode-encode bs h.1,
      )
      (ground arith)

hex_value-lt : (c v : ℕ) → hex_value c ≡ some v → v < 16
unfolding hex_value
hex_value-lt c v h = ground arith

pair_value-All :
    (hi lo : Option ℕ) (rest : Option Bytes) {bs : Bytes}
    → ((v : ℕ) → hi ≡ some v → v < 16)
    → ((v : ℕ) → lo ≡ some v → v < 16)
    → ((r : Bytes) → rest ≡ some r → All IsByte r)
    → pair_value hi lo rest ≡ some bs
    → All IsByte bs
unfolding pair_value
pair_value-All (some hi) (some lo) (some rest) {bs} p q r h =
    go (p hi refl) (q lo refl) (r rest refl) bs h
  where
    go :
        hi < 16
        → lo < 16
        → All IsByte rest
        → (cs : Bytes) → some ((16 * hi + lo) ∷ rest) ≡ some cs
        → All IsByte cs
    go a b c [] e = cc
    go a b c (x ∷ xs) e = (ground arith, ground arith)
pair_value-All (some hi) (some lo) none p q r h = cc
pair_value-All (some hi) none rest p q r h = cc
pair_value-All none lo rest p q r h = cc

-- Whatever text is decoded, the result is a list of bytes.
pub hex_decode-All : (text bs : Bytes) → hex_decode text ≡ some bs → All IsByte bs
unfolding hex_decode
hex_decode-All [] [] h = tt
hex_decode-All [] (b ∷ bs) h = cc
hex_decode-All (c ∷ []) bs h = cc
hex_decode-All (c ∷ d ∷ rest) bs h =
    pair_value-All (hex_value c) (hex_value d) (hex_decode rest) (hex_value-lt c) (hex_value-lt d)
      (λ r e. hex_decode-All rest r e) h
