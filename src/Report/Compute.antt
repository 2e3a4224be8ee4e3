-- ===== src/Report/Compute.antt =====
-- computePrepared of internal/report/report.go: one snapshot of the reports, from observations that are prepared.
pub mod Visit
pub mod Consistent
pub mod Coherent
pub mod Regional
use stratum_stats.Base.{
  ℕ, ◌+◌, Bool, true, false, ◌&&◌, ◌||◌, not, ◌==◌, Bytes, bytes, eqb, lexb, List, [], ◌∷◌, ◌++◌,
  Option, none, some, length, if◌then◌else◌, ltb, find, insert, bytes_eq, has, include, Float,
  sort_by, map, pos,
}
use stratum_stats.Model.{Time, Pool, Observation}
use stratum_stats.Model.Reports.{PoolReport, Snapshot}
use stratum_stats.Report.Keys.{observation_key, observation_key_parts, endpoint_report_key}
use stratum_stats.Report.Prepare.{prepare_observations}
use stratum_stats.Report.Accumulator.{
  Accumulator, accumulators_from, pools_by_id_from, completed_scheduled_runs,
  observation_accumulator,
}
use stratum_stats.Report.Cohort.{
  canonical_windows_from, unhealthy_regional_cohorts, expand_multi_region_observer_failures,
  detect_multi_region_observer_failures,
}
use stratum_stats.Report.Build.{build}
use stratum_stats.Report.Evidence.{values_of}
use stratum_stats.Report.Score.{apply_overall_score}
use stratum_stats.Report.Compute.Visit.{Totals, Context, no_totals, visit_all}

-- MethodologyVersion
abbrev pub methodology_version : Bytes
methodology_version = bytes "2026-09-04.37"

-- the sentences that a snapshot discloses
abbrev pub disclosure_lines : List Bytes
disclosure_lines =
    bytes "Reports use automated endpoint observations only; no pool pays or applies for placement."
    ∷ bytes "Latency is relative within the same block and vantage, reducing geographic bias."
    ∷ bytes
        "Regional Scout arrival is timestamped at the first readable Stratum byte, before message completion, parsing, and block-transition filtering."
    ∷ bytes
        "Combined-vantage reports reduce regional latency observations to one median per Bitcoin block before computing history, median, and P95."
    ∷ bytes
        "No observation older than 30 days is used; block-template latency, latency history, and protocol timing use a rolling 24-hour window."
    ∷ bytes
        "Eligible block and protocol-attempt counts are published directly with their measurements."
    ∷ bytes
        "Scheduled block measurements affect scores only after their complete atomic block sample is accepted."
    ∷ bytes
        "A scheduled regional block cohort is excluded when at least 20% of eligible endpoints across at least five pools miss together, indicating a vantage-wide measurement failure rather than independent pool availability."
    ∷ bytes
        "When the same block has broad observer failures in multiple regions, that block is excluded from every regional view so rolling collector maintenance cannot be scored as pool downtime."
    ∷ bytes
        "The probe uses pseudonymous miner credentials, but a pool can still observe its source IP."
    ∷ bytes
        "Observed solo-pool fee is inferred only when a decoded coinbase output matches the generated worker script; optional donations or splits may be included."
    ∷ bytes
        "Matched worker payout destinations are reduced to aggregate verification and fee evidence; their address and script are never published."
    ∷ bytes
        "Coinbase destinations identify decoded output scripts, not who controls a non-worker address."
    ∷ []

-- and those that a regional view adds
abbrev pub regional_disclosure_lines : List Bytes
regional_disclosure_lines =
    bytes "Regional views contain scheduled samples only; availability is not continuous uptime."
    ∷ bytes
        "Solo-pool safety and fee evidence remain global across vantages but are kept separate per endpoint."
    ∷ []

module _ {F : Type 0} where
  -- reportKey
  unfoldable pub report_key : PoolReport F → Bytes
  report_key r = endpoint_report_key r.pool_id r.endpoint r.endpoint_tls

  -- the order of the reports: by name, then by endpoint, plain before TLS
  unfoldable pub is_listed_before : PoolReport F → PoolReport F → Bool
  is_listed_before r s =
      if not (eqb r.pool_name s.pool_name)
      then lexb r.pool_name s.pool_name
      else if not (eqb r.endpoint s.endpoint)
      then lexb r.endpoint s.endpoint
      else not r.endpoint_tls && s.endpoint_tls

  -- what the loop over the observations knows before it starts
  unfoldable pub context_of : List Pool → List (Observation F) → Time → Context
  unfolding canonical_windows_from unhealthy_regional_cohorts expand_multi_region_observer_failures
  context_of pools os now =
      let completed = completed_scheduled_runs os in
      let acc : List (Bytes × Accumulator F) = accumulators_from [] pools in
      let by_id = pools_by_id_from [] pools in
      let windows = canonical_windows_from acc by_id completed [] os in
      let unhealthy = unhealthy_regional_cohorts os acc by_id completed windows in
      record {
        pools = by_id;
        completed = completed;
        windows = windows;
        now = now;
        excluded = expand_multi_region_observer_failures os unhealthy;
      }

module _ (fl : Float) where
  open fl use {F}

  unfoldable pub totals_of : List Pool → List (Observation F) → Time → Totals F
  unfolding visit_all context_of
  totals_of pools os now =
      visit_all fl (context_of pools os now) (no_totals (accumulators_from [] pools)) 0 os

  unfoldable pub reports_of : Time → Bool → List (Accumulator F) → List (PoolReport F)
  unfolding build
  reports_of now combine_vantages [] = []
  reports_of now combine_vantages (a ∷ rest) =
      build fl a now combine_vantages ∷ reports_of now combine_vantages rest

  unfoldable pub compute_prepared : List Pool → List (Observation F) → Time → Bool → Snapshot F
  unfolding totals_of reports_of is_listed_before
  compute_prepared pools os now combine_vantages =
      let totals = totals_of pools os now in
      record {
        generated_at = now;
        methodology = methodology_version;
        latency_window_hours = 24;
        retention_window_days = 30;
        latest_block_id = totals.latest_block_id;
        latest_block_height = totals.latest_block_height;
        blocks_observed = length totals.observed_blocks;
        eligible_endpoint_samples = length totals.eligible_endpoint_samples;
        template_deliveries = length totals.template_deliveries;
        excluded_regional_cohorts = length (context_of pools os now).excluded;
        reports = sort_by is_listed_before (reports_of now combine_vantages (values_of totals.acc));
        disclosure = disclosure_lines;
      }

  -- Compute, through compute
  unfoldable pub compute : List Pool → List (Observation F) → Time → Snapshot F
  unfolding compute_prepared
  compute pools os now = compute_prepared pools (prepare_observations fl pools os now) now false

  pub record PreparedReports : Type 0 where
    pub pools : List Pool
    pub observations : List (Observation F)
    pub now : Time
    pub failed_blocks : List Bytes
    pub multi_region_excluded_cohorts : List Bytes
    pub global : Snapshot F
    pub global_reports : List (Bytes × PoolReport F)

  unfoldable pub global_reports_from :
      List (Bytes × PoolReport F) → List (PoolReport F) → List (Bytes × PoolReport F)
  unfolding report_key
  global_reports_from reports [] = reports
  global_reports_from reports (r ∷ rs) = global_reports_from (insert (report_key r) r reports) rs

  -- Prepare
  unfoldable pub prepare_reports : List Pool → List (Observation F) → Time → PreparedReports
  unfolding compute_prepared global_reports_from
  prepare_reports pools os now =
      let prepared = prepare_observations fl pools os now in
      let snapshot = compute_prepared pools prepared now false in
      let (failed, excluded) = detect_multi_region_observer_failures pools prepared in
      record {
        pools = pools;
        observations = prepared;
        now = now;
        failed_blocks = failed;
        multi_region_excluded_cohorts = excluded;
        global = snapshot;
        global_reports = global_reports_from [] snapshot.reports;
      }

  -- the observations of the selected vantages, without the blocks that failed in several
  unfoldable pub select_vantages :
      List Bytes → List Bytes → List (Observation F) → List (Observation F)
  select_vantages vantages failed [] = []
  select_vantages vantages failed (o ∷ os) =
      let rest = select_vantages vantages failed os in
      if has o.vantage vantages && not (has o.block_id failed) then o ∷ rest else rest

  -- the cohorts that are counted again after the computation
  unfoldable pub restored_cohorts : List Bytes → List Bytes → List Bytes → ℕ
  restored_cohorts vantages failed [] = 0
  restored_cohorts vantages failed (key ∷ keys) =
      let parts = observation_key_parts key in
      let rest = restored_cohorts vantages failed keys in
      if has parts.0 vantages && has parts.1 failed then rest + 1 else rest

  -- the global evidence of a report
  unfoldable pub with_evidence : PoolReport F → PoolReport F → PoolReport F
  with_evidence evidence r = record r {
    coinbase_samples = evidence.coinbase_samples;
    worker_address_observed_pct = evidence.worker_address_observed_pct;
    worker_address_status = evidence.worker_address_status;
    latest_pool_fee_pct = evidence.latest_pool_fee_pct;
    previous_pool_fee_pct = evidence.previous_pool_fee_pct;
    pool_fee_changed = evidence.pool_fee_changed;
    pool_fee_changes = evidence.pool_fee_changes;
    pool_fee_samples = evidence.pool_fee_samples;
    pool_fee_last_changed_at = evidence.pool_fee_last_changed_at;
    latest_coinbase_observed_at = evidence.latest_coinbase_observed_at;
    latest_coinbase_total_sats = evidence.latest_coinbase_total_sats;
    latest_coinbase_output_count = evidence.latest_coinbase_output_count;
    latest_payout_destinations = evidence.latest_payout_destinations;
    latest_payout_destinations_truncated = evidence.latest_payout_destinations_truncated;
    latest_payout_omitted_sats = evidence.latest_payout_omitted_sats;
    pool_fee_history = evidence.pool_fee_history;
  }

  -- a report that the map lacks is Go's zero value, which has no evidence
  unfoldable pub no_evidence : PoolReport F → PoolReport F
  no_evidence r = record r {
    coinbase_samples = 0;
    worker_address_observed_pct = none;
    worker_address_status = [];
    latest_pool_fee_pct = none;
    previous_pool_fee_pct = none;
    pool_fee_changed = false;
    pool_fee_changes = 0;
    pool_fee_samples = 0;
    pool_fee_last_changed_at = none;
    latest_coinbase_observed_at = none;
    latest_coinbase_total_sats = 0;
    latest_coinbase_output_count = pos 0;
    latest_payout_destinations = [];
    latest_payout_destinations_truncated = false;
    latest_payout_omitted_sats = 0;
    pool_fee_history = [];
  }

  unfoldable pub regional_report : List (Bytes × PoolReport F) → Time → PoolReport F → PoolReport F
  unfolding report_key with_evidence no_evidence apply_overall_score
  regional_report global now r =
      apply_overall_score fl
        (elim (find (report_key r) global) [
          | none ↦ no_evidence r
          | some evidence ↦ with_evidence evidence r
        ])
        now

  -- PreparedReports.ComputeVantages, at the set of the selected vantages
  unfoldable pub compute_vantages : PreparedReports → List Bytes → Snapshot F
  unfolding compute_prepared select_vantages restored_cohorts regional_report
  compute_vantages p vantages =
      let filtered = select_vantages vantages p.failed_blocks p.observations in
      let regional = compute_prepared p.pools filtered p.now (ltb 1 (length vantages)) in
      record regional {
        excluded_regional_cohorts =
            regional.excluded_regional_cohorts
            + restored_cohorts vantages p.failed_blocks p.multi_region_excluded_cohorts;
        reports = map (regional_report p.global_reports p.now) regional.reports;
        disclosure = regional.disclosure ++ regional_disclosure_lines;
      }

  -- PreparedReports.ComputeVantage
  unfoldable pub compute_vantage : PreparedReports → Bytes → Snapshot F
  unfolding compute_vantages
  compute_vantage p vantage = compute_vantages p (vantage ∷ [])
