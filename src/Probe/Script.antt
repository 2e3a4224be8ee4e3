-- ===== src/Probe/Script.antt =====
-- The output scripts of internal/probe/coinbase.go and the addresses that stand for them, with the
-- base58 of internal/probe/identity.go. SHA-256 is a parameter.
use mathlib.Core.List.{reverse}
use Prim.Native.Nat.{bit_xor}
use stratum_stats.Base.{
  ℕ, zero, suc, ◌+◌, ◌-◌, ◌*◌, ◌/◌, ◌%◌, ◌^◌, Bool, true, false, ◌&&◌, ◌||◌, not, Bytes, bytes, eqb,
  List, [], ◌∷◌, ◌++◌, map, Option, none, some, take, drop, length, get_or, replicate, leb, ltb,
  ◌==◌, if◌then◌else◌, digits, decimal_ℕ, hex_encode,
}
use stratum_stats.Model.{max_retained_coinbase_script_bytes}

-- script[i], where a test on the length stands before it
abbrev at : Bytes → ℕ → ℕ
at script i = get_or script i 0

-- script[from:to]
abbrev slice : Bytes → ℕ → ℕ → Bytes
slice script from to = drop from (take to script)

-- decodeCoinbaseHeight: `none` is `(0, false)`; the loop ORs bytes that do not overlap.
height_bytes : Bytes → ℕ
height_bytes [] = 0
height_bytes (b ∷ bs) = b + 256 * height_bytes bs

unfoldable pub decode_coinbase_height : Bytes → Option ℕ
unfolding height_bytes
decode_coinbase_height script =
    if ltb (length script) 2
    then none
    else let size = at script 0 in
      if ltb size 1
        || (ltb 5 size || (ltb (length script) (size + 1) || leb 0x80 (at script size % 256)))
      then none
      else let height = height_bytes (slice script 1 (size + 1)) in
        if ltb 0 height then some height else none

-- retainedScriptHex
unfoldable pub retained_script_hex : Bytes → Bytes × Bool
unfolding hex_encode
retained_script_hex script =
    if leb (length script) max_retained_coinbase_script_bytes
    then (hex_encode script, false)
    else (hex_encode (take max_retained_coinbase_script_bytes script), true)

base58_alphabet : Bytes
base58_alphabet = bytes "123456789ABCDEFGHJKLMNPQRSTUVWXYZabcdefghijkmnopqrstuvwxyz"

-- big.Int.SetBytes
big_endian_from : ℕ → Bytes → ℕ
big_endian_from acc [] = acc
big_endian_from acc (b ∷ bs) = big_endian_from (256 * acc + b) bs

leading_ones : Bytes → Bytes
leading_ones [] = []
leading_ones (b ∷ bs) = let rest = leading_ones bs in if b == 0 then b'1' ∷ rest else []

unfoldable pub base58 : Bytes → Bytes
unfolding base58_alphabet big_endian_from leading_ones digits
base58 input =
    let x = big_endian_from 0 input in
    reverse (map (at base58_alphabet) (digits 58 (suc x) x) ++ leading_ones input)

bech32_charset : Bytes
bech32_charset = bytes "qpzry9x8gf2tvdw0s3jn54khce6mua7l"

-- `for bits >= 5` of bytesToBase32: the digits that it emits, and the bits that are left
emit : ℕ → ℕ → ℕ → Bytes × ℕ
emit zero accumulator bits = ([], bits)
emit (suc fuel) accumulator bits =
    let more = emit fuel accumulator (bits - 5) in
    if leb 5 bits then ((accumulator / 2 ^ (bits - 5)) % 32 ∷ more.0, more.1) else ([], bits)

-- The loop of bytesToBase32; `accumulator` is a uint32.
to_base32_from : ℕ → ℕ → Bytes → Bytes
unfolding emit
to_base32_from accumulator bits [] =
    if ltb 0 bits then (accumulator * 2 ^ (5 - bits)) % 32 ∷ [] else []
to_base32_from accumulator bits (value ∷ rest) =
    let acc = (accumulator * 256 + value) % 2 ^ 32 in
    let out = emit (bits + 8) acc (bits + 8) in out.0 ++ to_base32_from acc out.1 rest

unfoldable pub bytes_to_base32 : Bytes → Bytes
unfolding to_base32_from
bytes_to_base32 = to_base32_from 0 0

bech32_hrp_expand : Bytes → Bytes
bech32_hrp_expand hrp = map (λ c. c / 32) hrp ++ (0 ∷ map (λ c. c % 32) hrp)

-- the loop over `generators` at bit `i` of `top`
apply_generators : ℕ → List ℕ → ℕ → ℕ
apply_generators top [] checksum = checksum
apply_generators top (g ∷ gs) checksum =
    apply_generators (top / 2) gs (if top % 2 == 1 then bit_xor checksum g else checksum)

bech32_generators : List ℕ
bech32_generators = 0x3b6a57b2 ∷ 0x26508e6d ∷ 0x1ea119fa ∷ 0x3d4233dd ∷ 0x2a1462b3 ∷ []

bech32_polymod_from : ℕ → Bytes → ℕ
unfolding apply_generators bech32_generators
bech32_polymod_from checksum [] = checksum
bech32_polymod_from checksum (value ∷ rest) =
    bech32_polymod_from
      (apply_generators (checksum / 2 ^ 25) bech32_generators
        (bit_xor ((checksum % 2 ^ 25) * 32) value))
      rest

unfoldable pub bech32_polymod : Bytes → ℕ
unfolding bech32_polymod_from
bech32_polymod = bech32_polymod_from 1

-- the six groups of five bits, the highest first
checksum_digits : ℕ → ℕ → Bytes
checksum_digits zero polymod = []
checksum_digits (suc k) polymod = (polymod / 2 ^ (5 * k)) % 32 ∷ checksum_digits k polymod

unfoldable pub encode_witness_address : ℕ → Bytes → Bytes
unfolding bech32_charset bytes_to_base32 bech32_hrp_expand bech32_polymod checksum_digits
encode_witness_address version program =
    let payload = version ∷ bytes_to_base32 program in
    let constant : ℕ = if ltb 0 version then 0x2bc830a3 else 1 in
    let values = bech32_hrp_expand (bytes "bc") ++ payload ++ replicate 6 0 in
    let polymod = bit_xor (bech32_polymod values) constant in
    bytes "bc1" ++ map (at bech32_charset) (payload ++ checksum_digits 6 polymod)

-- `version` of describeOutputScript, `none` for -1
witness_version : ℕ → Option ℕ
witness_version first =
    if first == 0
    then some 0
    else if leb 0x51 first && leb first 0x60
    then some (first - 0x50)
    else none

is_witness_program : Option ℕ → Bytes → Bool
is_witness_program none script = false
is_witness_program (some version) script =
    let program_len = at script 1 in
    (program_len == length script - 2)
    && (leb 2 program_len
        && (leb program_len 40
            && (not (version == 0) || ((program_len == 20) || (program_len == 32)))))

witness_script_type : ℕ → ℕ → Bytes
witness_script_type version program_len =
    if (version == 0) && (program_len == 20)
    then bytes "p2wpkh"
    else if (version == 0) && (program_len == 32)
    then bytes "p2wsh"
    else if (version == 1) && (program_len == 32)
    then bytes "p2tr"
    else bytes "witness_v" ++ decimal_ℕ version

or_zero : Option ℕ → ℕ
or_zero (some n) = n
or_zero none = 0

module _ (sha256 : Bytes → Bytes) where
  unfoldable pub double_sha256 : Bytes → Bytes
  double_sha256 value = sha256 (sha256 value)

  unfoldable pub base58_check : ℕ → Bytes → Bytes
  unfolding double_sha256 base58
  base58_check prefix payload =
      let value = prefix ∷ payload in base58 (value ++ take 4 (double_sha256 value))

  -- describeOutputScript: the address and the script type
  unfoldable pub describe_output_script : Bytes → Bytes × Bytes
  unfolding base58_check encode_witness_address witness_version is_witness_program
      witness_script_type or_zero
  describe_output_script script =
      let n = length script in
      if (n == 25)
        && (eqb (take 3 script) (0x76 ∷ 0xa9 ∷ 0x14 ∷ [])
            && eqb (drop 23 script) (0x88 ∷ 0xac ∷ []))
      then (base58_check 0x00 (slice script 3 23), bytes "p2pkh")
      else if (n == 23) && (eqb (take 2 script) (0xa9 ∷ 0x14 ∷ []) && (at script 22 == 0x87))
      then (base58_check 0x05 (slice script 2 22), bytes "p2sh")
      else let version = witness_version (at script 0) in
        if leb 4 n && is_witness_program version script
        then (
          encode_witness_address (or_zero version) (drop 2 script),
          witness_script_type (or_zero version) (at script 1),
        )
        else if ((n == 35) && ((at script 0 == 0x21) && (at script 34 == 0xac)))
            || ((n == 67) && ((at script 0 == 0x41) && (at script 66 == 0xac)))
        then ([], bytes "p2pk")
        else if ltb 0 n && (at script 0 == 0x6a)
        then ([], bytes "op_return")
        else ([], bytes "unknown")
