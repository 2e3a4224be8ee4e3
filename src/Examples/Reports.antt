-- ===== src/Examples/Reports.antt =====
-- The theorems about the reports at concrete observations.
use mathlib.Core.List.{Memᴰ}
use stratum_stats.Base.{
  ◌*◌, ◌/◌, ◌<◌, not, Float, ◌⊎◌, ℕ, ◌≤◌, ◌≡◌, refl, true, false, ◌&&◌, ◌||◌, not, Bytes, bytes,
  eqb, is_empty, List, [], ◌∷◌, ◌++◌, some, map, keep, has, All, bytes_eq, arith,
}
use stratum_stats.Model.{
  Pool, EndpointIdentity, Observation, zero_observation, source_remote_scheduled,
  record_type_block_sample,
}
use stratum_stats.Ingest.Envelope.{is_some}
use stratum_stats.Report.Keys.{observation_key, endpoint_report_key}
use stratum_stats.Report.Prepare.{unique_observations, expand_sample, eligible_of}
use stratum_stats.Report.Prepare.Unique.{
  IsDistinct, has_id, unique_observations-IsDistinct, unique_observations-has_id,
}
use stratum_stats.Report.Prepare.Expand.{is_block, outcome, expected, expand_sample-outcome}
use stratum_stats.Report.Accumulator.{
  Accumulator, MetricSample, new_accumulator, accumulators_from, pools_by_id_from, no_endpoint,
  is_scoreable_block, observation_accumulator,
}
use stratum_stats.Report.Cohort.{
  expand_multi_region_observer_failures, unhealthy_regional_cohorts, cohorts_from, excluded_from,
  is_unhealthy, pools_of, record_health,
}
use stratum_stats.Report.Cohort.Failures.{
  any_cohort, has_failed, has-expand_multi_region_observer_failures,
}
use stratum_stats.Report.Cohort.Health.{FivePools, has_miss, unhealthy_regional_cohorts-FivePools}
use stratum_stats.Report.Metrics.{percentile, sort_floats, float_less}
use stratum_stats.Report.Metrics.Rank.{IsOrder, how_many, percentile-sort_floats}
use stratum_stats.Report.Score.{overall_score_of, is_overridden, no_score}
use stratum_stats.Report.Score.Measured.{is_measured, overall_score_of-measured}
use stratum_stats.Report.Build.{build, empty_report}
use stratum_stats.Report.Evidence.{values_of}
use stratum_stats.Report.Build.Payouts.{is_any_unpaid, build-unpaid}
use stratum_stats.Report.Build.Fees.{HasFees, build-HasFees}
use stratum_stats.Report.Compute.{compute_prepared, compute_vantages, prepare_reports}
use stratum_stats.Report.Compute.Coherent.{IsCoherent, compute_prepared-IsCoherent}
use stratum_stats.Report.Compute.Regional.{IsRegional, compute_vantages-IsRegional}
use stratum_stats.Examples.Samples.{naturals}

-- a pool without an endpoint, by its id and its category
abbrev pool_named : Bytes → Pool
pool_named id = record {
  id = id;
  name = id;
  operator = [];
  website = [];
  category = bytes "solo";
  status = [];
  products = [];
  endpoints = [];
}

abbrev five_pools : List Pool
five_pools =
    pool_named (bytes "a")
    ∷ pool_named (bytes "b")
    ∷ pool_named (bytes "c")
    ∷ pool_named (bytes "d")
    ∷ pool_named (bytes "e")
    ∷ []

-- a scheduled observation of a block that the pool did not deliver
abbrev missed_by : Bytes → Bytes → Observation ℕ
missed_by vantage pool_id = record (zero_observation 0) {
  observation_id = vantage ++ pool_id;
  source = source_remote_scheduled;
  run_id = bytes "run";
  observed_at = 5;
  vantage = vantage;
  block_id = bytes "tip";
  pool_id = pool_id;
  eligible = true;
}

-- and one that it delivered, with a coinbase that does not pay the worker
abbrev delivered_by : Bytes → Observation ℕ
delivered_by pool_id = record (zero_observation 0) {
  observation_id = pool_id;
  observed_at = 5;
  vantage = bytes "us";
  block_id = bytes "tip";
  pool_id = pool_id;
  eligible = true;
  arrived = true;
  offset_ms = 7;
  coinbase_analyzed = true;
  coinbase_total_sats = 100;
  estimated_pool_fee_pct = some 2;
}

abbrev all_missed : List (Observation ℕ)
all_missed = map (λ (p : Pool). missed_by (bytes "us") p.id) five_pools

abbrev first_accumulator : Accumulator ℕ
first_accumulator = record (new_accumulator (pool_named (bytes "a")) no_endpoint) {
  coinbase = (bytes "k", record { observation = delivered_by (bytes "a"); order = 0 }) ∷ [];
}

-- an atomic sample without endpoints of its own
abbrev block_sample : Observation ℕ
block_sample = record (zero_observation 0) {
  observation_id = bytes "s";
  record_type = record_type_block_sample;
  observed_at = 5;
  vantage = bytes "us";
  block_id = bytes "tip";
}

abbrev two_endpoints : List EndpointIdentity
two_endpoints =
    record { pool_id = bytes "a"; endpoint = bytes "a:1"; tls = false }
    ∷ record { pool_id = bytes "b"; endpoint = bytes "b:1"; tls = true }
    ∷ []

abbrev two_samples : List (MetricSample ℕ)
two_samples =
    record { at = 2; order = 1; value = 4; block_id = bytes "y"; win = false }
    ∷ record { at = 1; order = 0; value = 3; block_id = bytes "x"; win = true }
    ∷ []

-- the keys of a block that failed in two vantages
abbrev two_failures : List Bytes
two_failures =
    observation_key (missed_by (bytes "us") []) ∷ observation_key (missed_by (bytes "eu") []) ∷ []

unique_observations-IsDistinct_example :
    IsDistinct [] (unique_observations (all_missed ++ all_missed))
    × (unique_observations (unique_observations (all_missed ++ all_missed))
        ≡ unique_observations (all_missed ++ all_missed))
unique_observations-IsDistinct_example = unique_observations-IsDistinct (all_missed ++ all_missed)

unique_observations-has_id_example :
    has_id (bytes "usc") (unique_observations all_missed) ≡ has_id (bytes "usc") all_missed
unique_observations-has_id_example = unique_observations-has_id (bytes "usc") all_missed refl

expand_sample-outcome_example :
    map
      (outcome naturals)
      (keep (is_block naturals) (expand_sample naturals two_endpoints block_sample))
    ≡ map (expected naturals block_sample) (eligible_of naturals two_endpoints block_sample)
expand_sample-outcome_example = expand_sample-outcome naturals two_endpoints block_sample refl

has-expand_multi_region_observer_failures_example :
    has (bytes "asia") (expand_multi_region_observer_failures all_missed two_failures) ≡ (
      has (bytes "asia") two_failures
      || any_cohort (has_failed two_failures) (bytes "asia") all_missed)
has-expand_multi_region_observer_failures_example =
    has-expand_multi_region_observer_failures all_missed two_failures (bytes "asia")

all_missed_excluded :
    has (observation_key (missed_by (bytes "us") [])) (
      unhealthy_regional_cohorts all_missed
        (accumulators_from [] five_pools)
        (pools_by_id_from [] five_pools)
        (bytes "run" ∷ [])
        ((observation_key (missed_by (bytes "us") []), 5) ∷ []))
    ≡ true
unfolding unhealthy_regional_cohorts cohorts_from excluded_from is_unhealthy pools_of record_health
    is_scoreable_block observation_key observation_accumulator pools_by_id_from accumulators_from
    endpoint_report_key
all_missed_excluded = refl

unhealthy_regional_cohorts-FivePools_example :
    FivePools (has_miss all_missed (observation_key (missed_by (bytes "us") [])))
unhealthy_regional_cohorts-FivePools_example =
    unhealthy_regional_cohorts-FivePools (accumulators_from [] five_pools)
      (pools_by_id_from [] five_pools) (bytes "run" ∷ [])
      ((observation_key (missed_by (bytes "us") []), 5) ∷ []) all_missed
      (observation_key (missed_by (bytes "us") [])) all_missed_excluded

-- the product is halved, so that 1 stands for the median
abbrev halves : Float
halves = record naturals { mul = λ x y. x * y / 2 }

halves-IsOrder : IsOrder (float_less halves)
unfolding float_less
halves-IsOrder = record {
  asym = λ x y h. ground (arith, h);
  trans = λ x y z h k. ground (arith, h, k);
}

percentile-sort_floats_example :
    let values : List ℕ = 4 ∷ 1 ∷ 3 ∷ 2 ∷ [] in
    let v = percentile halves (sort_floats halves values) 1 in
    Memᴰ v values
    × (how_many (λ x. float_less halves x v) values < 2)
    × (2 ≤ how_many (λ x. not (float_less halves v x)) values)
percentile-sort_floats_example =
    percentile-sort_floats halves (4 ∷ 1 ∷ 3 ∷ 2 ∷ []) 1 halves-IsOrder refl

overall_score_of-measured_example :
    let report = empty_report naturals first_accumulator in
    let result = overall_score_of naturals report 9 in
    (is_some result.score ≡ (is_overridden report || is_measured naturals report))
    × (not (is_empty result.override_reason) ≡ is_overridden report)
    × ((is_overridden report ≡ false)
        ⊎ (result ≡ record (no_score naturals) {
          score = some 0;
          override_reason = bytes "worker_wallet_not_found";
        }))
overall_score_of-measured_example =
    overall_score_of-measured naturals (empty_report naturals first_accumulator) 9

build-unpaid_example :
    let report = build naturals first_accumulator 9 false in
    let unpaid =
      eqb first_accumulator.pool.category (bytes "solo")
      && is_any_unpaid naturals (values_of first_accumulator.coinbase) in
    (not (is_empty report.score_override_reason) ≡ unpaid)
    × ((unpaid ≡ false) ⊎ (report.overall_score ≡ some 0))
build-unpaid_example = build-unpaid naturals first_accumulator 9 false

build-HasFees_example : HasFees (build naturals first_accumulator 9 false)
build-HasFees_example = build-HasFees naturals first_accumulator 9 false

compute_prepared-IsCoherent_example :
    let snapshot =
      compute_prepared naturals five_pools (delivered_by (bytes "a") ∷ all_missed) 9 false in
    (snapshot.template_deliveries ≤ snapshot.eligible_endpoint_samples)
    × All IsCoherent snapshot.reports
compute_prepared-IsCoherent_example =
    compute_prepared-IsCoherent naturals five_pools (delivered_by (bytes "a") ∷ all_missed) 9 false

compute_vantages-IsRegional_example :
    let prepared = prepare_reports naturals five_pools (delivered_by (bytes "a") ∷ all_missed) 9 in
    IsRegional naturals prepared
      (bytes "us" ∷ bytes "eu" ∷ [])
      (compute_vantages naturals prepared (bytes "us" ∷ bytes "eu" ∷ []))
compute_vantages-IsRegional_example =
    compute_vantages-IsRegional naturals
      (prepare_reports naturals five_pools (delivered_by (bytes "a") ∷ all_missed) 9)
      (bytes "us" ∷ bytes "eu" ∷ [])
