-- ===== src/Examples/Scripts.antt =====
-- Known addresses.
use stratum_stats.Base.{◌≡◌, refl, bytes, ◌∷◌, []}
use stratum_stats.Probe.Script.{encode_witness_address, base58}

-- The address that BIP 173 gives for a version 0 program.
bip173_address :
    encode_witness_address 0 (
      0x75 ∷ 0x1e ∷ 0x76 ∷ 0xe8 ∷ 0x19 ∷ 0x91 ∷ 0x96 ∷ 0xd4 ∷ 0x54 ∷ 0x94 ∷ 0x1c ∷ 0x45 ∷ 0xd1
      ∷ 0xb3 ∷ 0xa3 ∷ 0x23 ∷ 0xf1 ∷ 0x43 ∷ 0x3b ∷ 0xd6 ∷ [])
    ≡ bytes "bc1qw508d6qejxtdg4y5r3zarvary0c5xw7kv8f3t4"
unfolding encode_witness_address
bip173_address = refl

base58_hello : base58 (bytes "Hello World!") ≡ bytes "2NEpo7TZRRrLZSi2U"
unfolding base58
base58_hello = refl
