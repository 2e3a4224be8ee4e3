-- ===== src/Probe/Job/Agreement.antt =====
-- The two analyses of a coinbase agree: the collector's own, of a job, and that of the source that
-- Scout forwards.
use stratum_stats.Base.{ltb_ℕ, leb_ℕ, ◌≡◌, true, Bytes, some, hex_decode, not, ◌&&◌}
use stratum_stats.Model.{CoinbaseSource, CoinbaseEvidence}
use stratum_stats.Probe.Job.{Job, Verification, raw_of}

-- The source that carries a job's coinbase, with the text of the digest of a worker's script.
abbrev pub source_of : Job → Bytes → CoinbaseSource
source_of j worker_hash_text = record {
  coinbase1 = j.coinbase1;
  coinbase2 = j.coinbase2;
  extra_nonce1 = j.extra_nonce1;
  extra_nonce2_size = j.extra_nonce2_size;
  worker_script_sha256 = worker_hash_text;
}

-- The fields of the evidence that a verification carries.
abbrev pub evidence_in : {F : Type 0} → Verification F → CoinbaseEvidence F
evidence_in v = record {
  worker_wallet_in_coinbase = v.worker_wallet_seen;
  coinbase_total_sats = v.coinbase_total_sats;
  worker_payout_sats = v.worker_payout_sats;
  coinbase_outputs = v.coinbase_outputs;
  coinbase_output_count = v.coinbase_output_count;
  coinbase_outputs_truncated = v.coinbase_outputs_truncated;
  coinbase_omitted_sats = v.coinbase_omitted_sats;
  estimated_pool_fee_pct = v.estimated_pool_fee_pct;
}

-- What a job without errors has passed.
pub record Decodes (j : Job) : Type 0 where
  pub coinbase1 : hex_decode j.coinbase1 ≡ some (raw_of j.coinbase1)
  pub coinbase2 : hex_decode j.coinbase2 ≡ some (raw_of j.coinbase2)
  pub extra_nonce1 : hex_decode j.extra_nonce1 ≡ some (raw_of j.extra_nonce1)
  pub size : (not (ltb_ℕ j.extra_nonce2_size 1) && leb_ℕ j.extra_nonce2_size 32) ≡ true
