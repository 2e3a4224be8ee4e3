-- ===== src/Probe/Source.antt =====
-- AnalyzeCoinbaseSource of internal/probe/coinbase.go: the coinbase that Scout forwards is put
-- together again, with zeros for the second extranonce.
use stratum_stats.Base.{
  ℕ, leb_ℕ, ltb_ℕ, to_ℕ, ◌+◌, ◌-◌, ◌%◌, ◌^◌, ◌&&◌, not, Bytes, is_empty, List, [], ◌++◌, Option,
  none, some, length, replicate, ltb, ◌==◌, if◌then◌else◌, Outcome, ok, err, guard, ◌>>=◌, ◌>>◌,
  Float, hex_decode,
}
use stratum_stats.Model.{CoinbaseOutput, CoinbaseSource, CoinbaseEvidence}
use stratum_stats.Probe.Reader.{
  CoinbaseError, extra_nonce2_size_out_of_range, empty_field, not_hex, worker_hash_length,
}
use stratum_stats.Probe.Coinbase.Defs.{CoinbaseSummary, analyze_coinbase}

-- the closure `decode`
unfoldable pub decode_field : Bytes → Outcome CoinbaseError Bytes
decode_field value =
    if is_empty value
    then err empty_field
    else elim (hex_decode value) [ some decoded ↦ ok decoded | none ↦ err not_hex ]

-- The bytes of the transaction; `make([]byte, n)` is n zeros.
unfoldable pub reconstruct : Bytes → Bytes → ℕ → Bytes → Bytes
reconstruct coinbase1 extra_nonce1 extra_nonce2_size coinbase2 =
    coinbase1 ++ extra_nonce1 ++ replicate extra_nonce2_size 0 ++ coinbase2

module _ (fl : Float) where
  open fl use {F, of_ℕ, mul, div}

  -- The fee, where the worker's output was seen; the difference is one of uint64 values.
  unfoldable pub estimated_fee : CoinbaseSummary → Option F
  estimated_fee s =
      if s.worker_wallet_seen && ltb 0 s.total_sats
      then some (
          div (mul (of_ℕ 100) (of_ℕ ((s.total_sats + 2 ^ 64 - s.worker_sats) % 2 ^ 64)))
            (of_ℕ s.total_sats))
      else none

  unfoldable pub evidence_of : CoinbaseSummary → CoinbaseEvidence F
  unfolding estimated_fee
  evidence_of s = record {
    worker_wallet_in_coinbase = s.worker_wallet_seen;
    coinbase_total_sats = s.total_sats;
    worker_payout_sats = s.worker_sats;
    coinbase_outputs = s.outputs;
    coinbase_output_count = s.output_count;
    coinbase_outputs_truncated = s.outputs_truncated;
    coinbase_omitted_sats = s.omitted_sats;
    estimated_pool_fee_pct = estimated_fee s;
  }

  module _ (sha256 : Bytes → Bytes) (visit : List CoinbaseOutput → List CoinbaseOutput) where
    -- The height and the evidence.
    unfoldable pub analyze_coinbase_source :
        CoinbaseSource → Outcome CoinbaseError (ℕ × CoinbaseEvidence F)
    unfolding decode_field reconstruct evidence_of
    analyze_coinbase_source source = do
      guard (not (ltb_ℕ source.extra_nonce2_size 1) && leb_ℕ source.extra_nonce2_size 32)
          extra_nonce2_size_out_of_range
      coinbase1 ← decode_field source.coinbase1
      coinbase2 ← decode_field source.coinbase2
      extra_nonce1 ← decode_field source.extra_nonce1
      worker_hash ← decode_field source.worker_script_sha256
      guard (length worker_hash == 32) worker_hash_length
      summary ←
          analyze_coinbase sha256 [] worker_hash visit
            (reconstruct coinbase1 extra_nonce1 (to_ℕ source.extra_nonce2_size) coinbase2)
      ok (summary.block_height, evidence_of summary)
