-- ===== src/Probe/Job.antt =====
-- VerifyJob of internal/probe/jobverify.go: the structural checks of a mining.notify job.
pub mod Agreement
use stratum_stats.Base.{
  ℕ, zero, suc, ℤ, pos, negsuc, leb_ℕ, to_ℕ, ◌+◌, ◌-◌, ◌*◌, ◌/◌, ◌%◌, ◌^◌, ◌≡◌, Bool, true, false,
  ◌&&◌, ◌||◌, not, Bytes, List, [], ◌∷◌, ◌++◌, Option, none, some, length, get_or, ltb, leb, ◌==◌,
  if◌then◌else◌, Outcome, ok, err, Float, hex_decode, hex_encode,
}
use stratum_stats.Model.{CoinbaseOutput}
use stratum_stats.Probe.Reader.{CoinbaseError}
use stratum_stats.Probe.Script.{double_sha256}
use stratum_stats.Probe.Coinbase.Defs.{CoinbaseSummary, analyze_coinbase}
use stratum_stats.Probe.Source.{reconstruct, estimated_fee}

pub record Job : Type 0 where
  pub prev_hash : Bytes
  pub coinbase1 : Bytes
  pub coinbase2 : Bytes
  pub merkle_branches : List Bytes
  pub version : Bytes
  pub bits : Bytes
  pub ntime : Bytes
  pub extra_nonce1 : Bytes
  pub extra_nonce2_size : ℤ
  pub worker_script : Bytes
  pub worker_script_sha256 : Bytes

-- What an error text names.
pub data Field : Type 0 where
  previous_hash version bits ntime coinbase1 coinbase2 extra_nonce1 : Field
  merkle_branch : ℕ → Field

pub data JobError : Type 0 where
  field_not_hex : Field → JobError
  field_size : Field → ℕ → ℕ → JobError
  extra_nonce2_size_out_of_range invalid_target target_out_of_range coinbase_short : JobError
  coinbase_transaction : CoinbaseError → JobError

pub record Verification (F : Type 0) : Type 0 where
  pub valid : Bool
  pub errors : List JobError
  pub merkle_root : Bytes
  pub block_height : ℕ
  pub coinbase_analyzed : Bool
  pub worker_wallet_seen : Bool
  pub coinbase_total_sats : ℕ
  pub worker_payout_sats : ℕ
  pub coinbase_outputs : List CoinbaseOutput
  pub coinbase_output_count : ℕ
  pub coinbase_outputs_truncated : Bool
  pub coinbase_omitted_sats : ℕ
  pub estimated_pool_fee_pct : Option F

-- the closure `checkHex`, with the errors that it appends; `none` stands for the size -1
unfoldable pub check_hex : Field → Bytes → Option ℕ → List JobError × Bytes
check_hex name value size = elim (hex_decode value) [
  | none ↦ (field_not_hex name ∷ [], [])
  | some raw ↦ elim size [
    | none ↦ ([], raw)
    | some n ↦ (if length raw == n then [] else field_size name (length raw) n ∷ [], raw)
  ]
]

-- The target that four bytes of `bits` encode.
unfoldable pub check_bits : Bytes → List JobError
check_bits raw =
    let compact =
      get_or raw 0 0 * 2 ^ 24 + get_or raw 1 0 * 2 ^ 16 + get_or raw 2 0 * 2 ^ 8 + get_or raw 3 0 in
    let exponent = compact / 2 ^ 24 in
    let mantissa = compact % 2 ^ 23 in
    let target = mantissa * 2 ^ (8 * (exponent - 3)) in
    if not (length raw == 4)
    then []
    else if (mantissa == 0)
        || (((compact / 2 ^ 23) % 2 == 1) || (ltb exponent 3 || ltb 32 exponent))
    then invalid_target ∷ []
    else if (target == 0) || leb (2 ^ 256) target
    then target_out_of_range ∷ []
    else []

-- the loop over the branches: the errors, and the branches of 32 bytes
unfoldable pub check_branches : ℕ → List Bytes → List JobError × List Bytes
unfolding check_hex
check_branches i [] = ([], [])
check_branches i (branch ∷ rest) =
    let (errors, raw) = check_hex (merkle_branch i) branch (some 32) in
    let (more, branches) = check_branches (i + 1) rest in
    (errors ++ more, if length raw == 32 then raw ∷ branches else branches)

-- `lengths + size < 10`, at a size that may be negative
unfoldable pub implausibly_short : ℕ → ℤ → Bool
implausibly_short lengths (pos n) = ltb (lengths + n) 10
implausibly_short lengths (negsuc n) = ltb lengths (10 + suc n)

unfoldable pub check_extra_nonce2 : ℤ → List JobError
check_extra_nonce2 size =
    if leb_ℕ size 0 || not (leb_ℕ size 32) then extra_nonce2_size_out_of_range ∷ [] else []

-- the bytes of a field of any size; none where it is not hex
abbrev pub raw_of : Bytes → Bytes
raw_of value = (check_hex coinbase1 value none).1

unfoldable pub check_length : Job → List JobError
unfolding implausibly_short
check_length j =
    if implausibly_short
      (length (raw_of j.coinbase1) + length (raw_of j.coinbase2) + length (raw_of j.extra_nonce1))
      j.extra_nonce2_size
    then coinbase_short ∷ []
    else []

-- `errs` before the coinbase is reconstructed, in the order of the checks
unfoldable pub job_errors : Job → List JobError
job_errors j =
    (check_hex previous_hash j.prev_hash (some 32)).0
    ++ (check_hex version j.version (some 4)).0
    ++ (check_hex bits j.bits (some 4)).0
    ++ (check_hex ntime j.ntime (some 4)).0
    ++ (check_hex coinbase1 j.coinbase1 none).0
    ++ (check_hex coinbase2 j.coinbase2 none).0
    ++ (check_hex extra_nonce1 j.extra_nonce1 none).0
    ++ check_extra_nonce2 j.extra_nonce2_size
    ++ check_bits (check_hex bits j.bits (some 4)).1
    ++ (check_branches 0 j.merkle_branches).0
    ++ check_length j

unfoldable pub job_coinbase : Job → Bytes
job_coinbase j =
    reconstruct (raw_of j.coinbase1) (raw_of j.extra_nonce1) (to_ℕ j.extra_nonce2_size)
      (raw_of j.coinbase2)

unfoldable pub merkle_root_from : (Bytes → Bytes) → Bytes → List Bytes → Bytes
unfolding double_sha256
merkle_root_from sha256 hash [] = hash
merkle_root_from sha256 hash (branch ∷ rest) =
    merkle_root_from sha256 (double_sha256 sha256 (hash ++ branch)) rest

module _ (fl : Float) where
  open fl use {F}

  unfoldable pub invalid : List JobError → Bytes → Verification F
  invalid errors root = record {
    valid = false;
    errors = errors;
    merkle_root = root;
    block_height = 0;
    coinbase_analyzed = false;
    worker_wallet_seen = false;
    coinbase_total_sats = 0;
    worker_payout_sats = 0;
    coinbase_outputs = [];
    coinbase_output_count = 0;
    coinbase_outputs_truncated = false;
    coinbase_omitted_sats = 0;
    estimated_pool_fee_pct = none;
  }

  -- the result, once the coinbase has been analyzed
  unfoldable pub conclude : Bytes → Outcome CoinbaseError CoinbaseSummary → Verification F
  unfolding invalid estimated_fee
  conclude root (err e) = invalid (coinbase_transaction e ∷ []) root
  conclude root (ok s) = record {
    valid = true;
    errors = [];
    merkle_root = root;
    block_height = s.block_height;
    coinbase_analyzed = true;
    worker_wallet_seen = s.worker_wallet_seen;
    coinbase_total_sats = s.total_sats;
    worker_payout_sats = s.worker_sats;
    coinbase_outputs = s.outputs;
    coinbase_output_count = s.output_count;
    coinbase_outputs_truncated = s.outputs_truncated;
    coinbase_omitted_sats = s.omitted_sats;
    estimated_pool_fee_pct = estimated_fee fl s;
  }

  module _ (sha256 : Bytes → Bytes) (visit : List CoinbaseOutput → List CoinbaseOutput) where
    -- the Merkle root of the reconstructed coinbase and the branches
    unfoldable pub job_root : Job → Bytes
    job_root j = hex_encode (
        merkle_root_from sha256 (double_sha256 sha256 (job_coinbase j))
          (check_branches 0 j.merkle_branches).1)

    unfoldable pub verify_job : Job → Verification F
    verify_job j =
        if length (job_errors j) == 0
        then conclude (job_root j)
            (analyze_coinbase sha256 j.worker_script j.worker_script_sha256 visit (job_coinbase j))
        else invalid (job_errors j) []
