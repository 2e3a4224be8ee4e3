-- ===== src/Probe/Reader.antt =====
-- Reading a coinbase transaction (internal/probe/coinbase.go). The pair of `raw` and `cursor` is
-- modelled by the unread bytes, so that `len(raw) - cursor` is their number.
use native.Mathlib.Nat.{pow-suc}
use stratum_stats.Base.{
  ℕ, zero, suc, ◌+◌, ◌*◌, ◌/◌, ◌%◌, ◌^◌, ◌<◌, ◌≡◌, refl, ap, Bytes, [], ◌∷◌, take, drop, length,
  All, IsByte, Outcome, ok, err, leb, arith, if◌then◌else◌,
}

-- The errors of coinbase.go. Their texts also name a byte position, a number, or the part that was
-- being read, which the model leaves out.
pub data CoinbaseError : Type 0 where
  truncated missing_compact_size truncated_uint16 truncated_uint32 truncated_uint64 : CoinbaseError
  non_canonical input_count_implausible input_script_too_large : CoinbaseError
  output_count_implausible value_overflow output_script_too_large worker_overflow : CoinbaseError
  destination_overflow witness_count_implausible witness_item_too_large : CoinbaseError
  trailing_bytes extra_nonce2_size_out_of_range empty_field not_hex : CoinbaseError
  worker_hash_length : CoinbaseError

abbrev pub Read : Type 0 → Type 0
Read A = Bytes → Outcome CoinbaseError (A × Bytes)

-- the closure `take` of `analyzeCoinbaseWithWorkerHash`
unfoldable pub take_bytes : ℕ → Read Bytes
take_bytes n r = if leb n (length r) then ok (take n r, drop n r) else err truncated

-- binary.LittleEndian
unfoldable pub little_endian : Bytes → ℕ
little_endian [] = 0
little_endian (b ∷ bs) = b + 256 * little_endian bs

-- The k low bytes of a number, the lowest first.
unfoldable pub to_little_endian : ℕ → ℕ → Bytes
to_little_endian zero n = []
to_little_endian (suc k) n = (n % 256) ∷ to_little_endian k (n / 256)

pub length-to_little_endian : (k n : ℕ) → length (to_little_endian k n) ≡ k
unfolding to_little_endian
length-to_little_endian zero n = refl
length-to_little_endian (suc k) n = ap suc (length-to_little_endian k (n / 256))

pub little_endian-to_little_endian :
    (k n : ℕ) → n < 256 ^ k → little_endian (to_little_endian k n) ≡ n
unfolding little_endian to_little_endian
little_endian-to_little_endian zero n h = omega arith
little_endian-to_little_endian (suc k) n h =
    let small : n < 256 * 256 ^ k = omega (arith, pow-suc 256 k, h) in
    omega (arith, little_endian-to_little_endian k (n / 256) (omega arith))

pub to_little_endian-little_endian :
    (bs : Bytes) → All IsByte bs → to_little_endian (length bs) (little_endian bs) ≡ bs
unfolding little_endian to_little_endian
to_little_endian-little_endian [] h = refl
to_little_endian-little_endian (b ∷ bs) h =
    let low : (b + 256 * little_endian bs) % 256 ≡ b = omega arith in
    let high : (b + 256 * little_endian bs) / 256 ≡ little_endian bs = omega arith in
    rw (low, high, to_little_endian-little_endian bs h.1)

pub little_endian-lt : (bs : Bytes) → All IsByte bs → little_endian bs < 256 ^ length bs
unfolding little_endian
little_endian-lt [] h = omega arith
little_endian-lt (b ∷ bs) h = omega (arith, pow-suc 256 (length bs), little_endian-lt bs h.1)
