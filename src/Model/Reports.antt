-- ===== src/Model/Reports.antt =====
-- What internal/report computes, of internal/model/model.go and internal/model/protocol.go.
use stratum_stats.Base.{ℕ, ℤ, Bool, Bytes, List, Option}
use stratum_stats.Model.{Time}

pub record PayoutDestination (F : Type 0) : Type 0 where
  pub value_sats : ℕ
  pub percentage : F
  pub script_pub_key : Bytes
  pub script_pub_key_truncated : Bool
  pub address : Bytes
  pub script_type : Bytes

pub record MetricHistoryPoint (F : Type 0) : Type 0 where
  pub observed_at : Time
  pub value : F
  pub win : Bool

pub record TimingStats (F : Type 0) : Type 0 where
  pub attempts : ℕ
  pub successes : ℕ
  pub rejected : ℕ
  pub unsupported : ℕ
  pub timeouts : ℕ
  pub errors : ℕ
  pub certificate_errors : ℕ
  pub median_ms : Option F
  pub p95_ms : Option F

pub record PoolReport (F : Type 0) : Type 0 where
  pub pool_id : Bytes
  pub pool_name : Bytes
  pub endpoint : Bytes
  pub endpoint_tls : Bool
  pub endpoint_region : Bytes
  pub last_observed_at : Option Time
  pub category : Bytes
  pub products : List Bytes
  pub blocks : ℕ
  pub arrivals : ℕ
  pub eligible_checks : ℕ
  pub delivery_checks : ℕ
  pub wins : ℕ
  pub win_eligible_blocks : ℕ
  pub win_percentage : Option F
  pub median_ms : Option F
  pub p95_ms : Option F
  pub estimated_mining_loss_pct : Option F
  pub overall_score : Option F
  pub recent_fee_increase_penalty : F
  pub high_fee_penalty : F
  pub tls_certificate_penalty : F
  pub score_override_reason : Bytes
  pub availability : F
  pub tls_observed : Bool
  pub connect_timing : TimingStats F
  pub tls_timing : TimingStats F
  pub subscribe_timing : TimingStats F
  pub authorize_timing : TimingStats F
  pub coinbase_samples : ℕ
  pub worker_address_observed_pct : Option F
  pub worker_address_status : Bytes
  pub latest_pool_fee_pct : Option F
  pub previous_pool_fee_pct : Option F
  pub pool_fee_changed : Bool
  pub pool_fee_changes : ℕ
  pub pool_fee_samples : ℕ
  pub pool_fee_last_changed_at : Option Time
  pub latest_coinbase_observed_at : Option Time
  pub latest_coinbase_total_sats : ℕ
  pub latest_coinbase_output_count : ℤ
  pub latest_payout_destinations : List (PayoutDestination F)
  pub latest_payout_destinations_truncated : Bool
  pub latest_payout_omitted_sats : ℕ
  pub invalid_job_count : ℕ
  pub latest_invalid_job_at : Option Time
  pub latest_invalid_job_block_id : Bytes
  pub template_latency_history : List (MetricHistoryPoint F)
  pub pool_fee_history : List (MetricHistoryPoint F)

pub record Snapshot (F : Type 0) : Type 0 where
  pub generated_at : Time
  pub methodology : Bytes
  pub latency_window_hours : ℕ
  pub retention_window_days : ℕ
  pub latest_block_id : Bytes
  pub latest_block_height : ℕ
  pub blocks_observed : ℕ
  pub eligible_endpoint_samples : ℕ
  pub template_deliveries : ℕ
  pub excluded_regional_cohorts : ℕ
  pub reports : List (PoolReport F)
  pub disclosure : List Bytes
