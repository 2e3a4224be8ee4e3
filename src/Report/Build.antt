-- ===== src/Report/Build.antt =====
-- build of internal/report/report.go: the report of one endpoint, from what was accumulated for it. What Go visits
-- in an order of a map is visited here in the order of the association list.
pub mod Fees
pub mod Payouts
use stratum_stats.Base.{
  ℕ, ◌+◌, ◌-◌, ◌*◌, ℤ, pos, negsuc, eq_ℕ, Bool, true, false, ◌&&◌, ◌||◌, not, ◌==◌, Bytes, bytes,
  eqb, List, [], ◌∷◌, ◌++◌, Option, none, some, length, if◌then◌else◌, ltb, leb, Float, sort_by,
  map,
}
use stratum_stats.Model.{
  Time, Pool, CoinbaseOutput, Observation, protocol_connect, protocol_tls_handshake,
  protocol_subscribe, protocol_authorize,
}
use stratum_stats.Model.Reports.{PayoutDestination, PoolReport}
use stratum_stats.Report.Accumulator.{
  MetricSample, CoinbaseSample, Accumulator, within_latency_window,
}
use stratum_stats.Report.Metrics.{
  percentile, round, sort_floats, availability_for_checks, unique_block_counts,
  combined_vantage_availability, median_latency_by_block, recent_metric_history,
  recent_win_eligible_blocks, estimated_mining_loss, is_older, keys_of,
}
use stratum_stats.Report.Timing.{timing_stats}
use stratum_stats.Report.Score.{apply_overall_score}
use stratum_stats.Report.Evidence.{
  FeeChanges, InvalidJob, changed_from, fee_changes, fee_history_limit, fee_sample, fee_samples,
  is_newer, latency_samples, latest_coinbase, latest_invalid_job, newer_coinbase, newer_invalid,
  nonzero, output_count_of, payout_destinations, values_of, wins_of, worker_address_matches,
  worker_address_status_of,
}

module _ (fl : Float) where
  open fl use {F, of_ℕ, add, sub, mul, div}

  abbrev pub first_of : List F → Option F
  first_of [] = none
  first_of (x ∷ xs) = some x

  abbrev pub second_of : List F → Option F
  second_of [] = none
  second_of (x ∷ xs) = first_of xs

  abbrev pub percentage : ℕ → ℕ → Option F
  percentage part whole =
      if ltb 0 whole
      then some (round fl (div (mul (of_ℕ 100) (of_ℕ part)) (of_ℕ whole)) 1)
      else none

  abbrev pub percentile_of : List F → F → Option F
  percentile_of values p =
      if ltb 0 (length values)
      then some (round fl (percentile fl (sort_floats fl values) p) 1)
      else none

  -- `latencySamples`, which is one for each block in a combined report
  unfoldable pub latencies_of : Accumulator F → Time → Bool → List (MetricSample F)
  unfolding latency_samples median_latency_by_block
  latencies_of a now combine_vantages =
      let recent = latency_samples now (values_of a.offsets) in
      if combine_vantages then median_latency_by_block fl recent else recent

  -- the counts, availability and latency of the report
  unfoldable pub with_latency : Accumulator F → Time → Bool → PoolReport F → PoolReport F
  unfolding latencies_of wins_of round
  with_latency a now combine_vantages r =
      let counts : ℕ × ℕ =
        if combine_vantages
        then unique_block_counts a.blocks a.offsets
        else (length a.blocks, length a.offsets) in
      let availability =
        if combine_vantages
        then combined_vantage_availability fl a.blocks a.offsets
        else availability_for_checks fl a.blocks a.offsets in
      let samples = latencies_of a now combine_vantages in
      let values = map (λ (s : MetricSample F). s.value) samples in
      let eligible = recent_win_eligible_blocks a.block_times now combine_vantages in
      let median = percentile_of values (div (of_ℕ 5) (of_ℕ 10)) in
      record r {
        blocks = counts.0;
        arrivals = counts.1;
        eligible_checks = length a.blocks;
        delivery_checks = length a.offsets;
        wins = wins_of samples;
        win_eligible_blocks = eligible;
        win_percentage = percentage (wins_of samples) eligible;
        median_ms = median;
        p95_ms = percentile_of values (div (of_ℕ 95) (of_ℕ 100));
        estimated_mining_loss_pct = estimated_mining_loss fl median availability counts.0;
        availability = round fl availability 1;
        tls_observed = a.tls;
        template_latency_history = recent_metric_history fl samples 1 0;
      }

  unfoldable pub with_timings : Accumulator F → PoolReport F → PoolReport F
  unfolding timing_stats
  with_timings a r = record r {
    connect_timing = timing_stats fl a protocol_connect;
    tls_timing = timing_stats fl a protocol_tls_handshake;
    subscribe_timing = timing_stats fl a protocol_subscribe;
    authorize_timing = timing_stats fl a protocol_authorize;
  }

  -- the worker's address and the pool's fee
  unfoldable pub with_fees : Accumulator F → PoolReport F → PoolReport F
  unfolding fee_samples fee_changes worker_address_matches worker_address_status_of
  with_fees a r =
      let samples = values_of a.coinbase in
      let matches = worker_address_matches samples in
      let fees = sort_by is_older (fee_samples fl a.pool samples) in
      let changes =
        fee_changes fl (record { distinct = []; changes = 0; last_changed_at = none }) fees in
      record r {
        coinbase_samples = length samples;
        worker_address_observed_pct = percentage matches (length samples);
        worker_address_status = worker_address_status_of (length samples) matches;
        latest_pool_fee_pct = first_of changes.distinct;
        previous_pool_fee_pct = second_of changes.distinct;
        pool_fee_changed = ltb 0 changes.changes;
        pool_fee_changes = changes.changes;
        pool_fee_samples = length fees;
        pool_fee_last_changed_at = changes.last_changed_at;
        pool_fee_history = recent_metric_history fl fees 2 fee_history_limit;
      }

  -- the coinbase that the report shows
  unfoldable pub with_payouts : Option (CoinbaseSample F) → PoolReport F → PoolReport F
  unfolding payout_destinations output_count_of
  with_payouts none r = r
  with_payouts (some s) r =
      let o = s.observation in
      record r {
        latest_coinbase_observed_at = nonzero o.observed_at;
        latest_coinbase_total_sats = o.coinbase_total_sats;
        latest_coinbase_output_count = output_count_of o;
        latest_payout_destinations =
            payout_destinations fl o.coinbase_total_sats o.coinbase_outputs;
        latest_payout_destinations_truncated = o.coinbase_outputs_truncated;
        latest_payout_omitted_sats = o.coinbase_omitted_sats;
      }

  unfoldable pub with_invalid_jobs : List (CoinbaseSample F) → PoolReport F → PoolReport F
  unfolding latest_invalid_job
  with_invalid_jobs jobs r =
      let latest = latest_invalid_job (record { at = none; block_id = []; order = none }) jobs in
      record r {
        invalid_job_count = length jobs;
        latest_invalid_job_at = latest.at;
        latest_invalid_job_block_id = latest.block_id;
      }

  -- the report that names the pool and its endpoint, before anything is counted
  unfoldable pub empty_report : Accumulator F → PoolReport F
  unfolding timing_stats
  empty_report a = record {
    pool_id = a.pool.id;
    pool_name = a.pool.name;
    endpoint = a.address;
    endpoint_tls = a.endpoint.tls;
    endpoint_region = a.endpoint.region;
    last_observed_at = nonzero a.last_observed_at;
    category = a.pool.category;
    products = a.pool.products;
    blocks = 0;
    arrivals = 0;
    eligible_checks = 0;
    delivery_checks = 0;
    wins = 0;
    win_eligible_blocks = 0;
    win_percentage = none;
    median_ms = none;
    p95_ms = none;
    estimated_mining_loss_pct = none;
    overall_score = none;
    recent_fee_increase_penalty = of_ℕ 0;
    high_fee_penalty = of_ℕ 0;
    tls_certificate_penalty = of_ℕ 0;
    score_override_reason = [];
    availability = of_ℕ 0;
    tls_observed = false;
    connect_timing = timing_stats fl a [];
    tls_timing = timing_stats fl a [];
    subscribe_timing = timing_stats fl a [];
    authorize_timing = timing_stats fl a [];
    coinbase_samples = 0;
    worker_address_observed_pct = none;
    worker_address_status = bytes "unknown";
    latest_pool_fee_pct = none;
    previous_pool_fee_pct = none;
    pool_fee_changed = false;
    pool_fee_changes = 0;
    pool_fee_samples = 0;
    pool_fee_last_changed_at = none;
    latest_coinbase_observed_at = none;
    latest_coinbase_total_sats = 0;
    latest_coinbase_output_count = pos 0;
    latest_payout_destinations = [];
    latest_payout_destinations_truncated = false;
    latest_payout_omitted_sats = 0;
    invalid_job_count = 0;
    latest_invalid_job_at = none;
    latest_invalid_job_block_id = [];
    template_latency_history = [];
    pool_fee_history = [];
  }

  unfoldable pub build : Accumulator F → Time → Bool → PoolReport F
  unfolding empty_report with_latency with_timings with_fees with_payouts with_invalid_jobs
      apply_overall_score
  build a now combine_vantages =
      let report = with_invalid_jobs (values_of a.invalid_jobs) (
        with_payouts (latest_coinbase none (values_of a.coinbase))
          (with_fees a (with_timings a (with_latency a now combine_vantages (empty_report a))))) in
      apply_overall_score fl report now
