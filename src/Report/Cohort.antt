-- ===== src/Report/Cohort.antt =====
-- The regional cohorts of internal/report/report.go: which blocks of a region are left out because the
-- region's observer failed.
pub mod Health
pub mod Failures
use stratum_stats.Base.{
  ℕ, ◌+◌, ◌*◌, Bool, true, false, ◌&&◌, ◌||◌, not, Bytes, eqb, is_empty, List, [], ◌∷◌, Option,
  none, some, length, if◌then◌else◌, find, insert, erase, bytes_eq, ltb, leb, ◌==◌, has, include,
  map, keep,
}
use stratum_stats.Model.{Time, Pool, Observation, source_remote_scheduled}
use stratum_stats.Report.Keys.{endpoint_report_key, observation_key, observation_key_parts}
use stratum_stats.Report.Accumulator.{
  Accumulator, observation_accumulator, is_scoreable_block, completed_scheduled_runs,
  pools_by_id_from, accumulators_from,
}

abbrev pub regional_cohort_miss_pct : ℕ
regional_cohort_miss_pct = 20

abbrev pub regional_cohort_min_pools : ℕ
regional_cohort_min_pools = 5

-- regionalCohortHealth
pub record RegionalCohortHealth : Type 0 where
  pub eligible : List Bytes
  pub missed : List (Bytes × Bytes)

abbrev pub no_health : RegionalCohortHealth
no_health = record { eligible = []; missed = [] }

abbrev health_of : Option RegionalCohortHealth → RegionalCohortHealth
health_of none = no_health
health_of (some h) = h

-- what an observation of a cohort changes: the endpoint is eligible, and missed unless it arrived
unfoldable pub record_health : Bytes → Bytes → Bool → RegionalCohortHealth → RegionalCohortHealth
record_health endpoint pool_id arrived h = record {
  eligible = include endpoint h.eligible;
  missed = if arrived then erase endpoint h.missed else insert endpoint pool_id h.missed;
}

unfoldable pub pools_of : List Bytes → List (Bytes × Bytes) → List Bytes
pools_of pools [] = pools
pools_of pools (m ∷ missed) = pools_of (include m.1 pools) missed

-- whether a cohort is left out
unfoldable pub is_unhealthy : RegionalCohortHealth → Bool
unfolding pools_of
is_unhealthy h =
    leb regional_cohort_min_pools (length (pools_of [] h.missed))
    && leb (length h.eligible * regional_cohort_miss_pct) (length h.missed * 100)

unfoldable pub excluded_from : List Bytes → List (Bytes × RegionalCohortHealth) → List Bytes
unfolding is_unhealthy
excluded_from excluded [] = excluded
excluded_from excluded ((key, h) ∷ cohorts) =
    excluded_from (if is_unhealthy h then include key excluded else excluded) cohorts

-- `!exists || at.Before(old)`
abbrev pub is_sooner : Time → Option Time → Bool
is_sooner at none = true
is_sooner at (some old) = ltb at old

-- `observedAt.Equal(windows[key])`; a key that is missing has the zero time
abbrev pub is_at : Time → Option Time → Bool
is_at at none = at == 0
is_at at (some start) = at == start

-- failedVantages[blockID][vantage] = true
unfoldable pub add_failed_vantage :
    Bytes × Bytes → List (Bytes × List Bytes) → List (Bytes × List Bytes)
add_failed_vantage (vantage, block_id) failed =
    insert block_id
      (elim (find block_id failed) [ none ↦ vantage ∷ [] | some vs ↦ include vantage vs ]) failed

unfoldable pub failed_vantages_from :
    List (Bytes × List Bytes) → List Bytes → List (Bytes × List Bytes)
unfolding add_failed_vantage
failed_vantages_from failed [] = failed
failed_vantages_from failed (key ∷ keys) =
    failed_vantages_from (add_failed_vantage (observation_key_parts key) failed) keys

unfoldable pub failed_blocks_from : List Bytes → List (Bytes × List Bytes) → List Bytes
failed_blocks_from blocks [] = blocks
failed_blocks_from blocks ((block_id, vantages) ∷ rest) =
    failed_blocks_from (if leb 2 (length vantages) then include block_id blocks else blocks) rest

-- multiRegionFailedBlocks
unfoldable pub multi_region_failed_blocks : List Bytes → List Bytes
unfolding failed_vantages_from failed_blocks_from
multi_region_failed_blocks excluded = failed_blocks_from [] (failed_vantages_from [] excluded)

module _ {F : Type 0} where
  abbrev is_known : Option (Bytes × Accumulator F) → Bool
  is_known none = false
  is_known (some a) = true

  -- the loop that finds the first window of each cohort, which is the one that counts
  unfoldable pub canonical_windows_from :
      List (Bytes × Accumulator F)
      → List (Bytes × Pool)
      → List Bytes
      → List (Bytes × Time)
      → List (Observation F)
      → List (Bytes × Time)
  canonical_windows_from acc pools completed windows [] = windows
  canonical_windows_from acc pools completed windows (o ∷ os) =
      canonical_windows_from acc pools completed
        (if is_known (observation_accumulator acc pools o)
            && (is_scoreable_block completed o
                && is_sooner o.observed_at (find (observation_key o) windows))
          then insert (observation_key o) o.observed_at windows
          else windows)
        os

  abbrev at_health :
      Observation F
      → Option (Bytes × Accumulator F)
      → List (Bytes × RegionalCohortHealth)
      → List (Bytes × RegionalCohortHealth)
  at_health o none cohorts = cohorts
  at_health o (some (key, a)) cohorts =
      insert (observation_key o)
        (record_health (endpoint_report_key o.pool_id a.address a.endpoint.tls) o.pool_id o.arrived
          (health_of (find (observation_key o) cohorts)))
        cohorts

  -- the first loop of unhealthyRegionalCohorts
  unfoldable pub cohorts_from :
      List (Bytes × Accumulator F)
      → List (Bytes × Pool)
      → List Bytes
      → List (Bytes × Time)
      → List (Bytes × RegionalCohortHealth)
      → List (Observation F)
      → List (Bytes × RegionalCohortHealth)
  cohorts_from acc pools completed windows cohorts [] = cohorts
  cohorts_from acc pools completed windows cohorts (o ∷ os) =
      cohorts_from acc pools completed windows
        (if eqb o.source source_remote_scheduled
            && (is_scoreable_block completed o
                && is_at o.observed_at (find (observation_key o) windows))
          then at_health o (observation_accumulator acc pools o) cohorts
          else cohorts)
        os

  -- unhealthyRegionalCohorts
  unfoldable pub unhealthy_regional_cohorts :
      List (Observation F)
      → List (Bytes × Accumulator F)
      → List (Bytes × Pool)
      → List Bytes
      → List (Bytes × Time)
      → List Bytes
  unfolding cohorts_from excluded_from
  unhealthy_regional_cohorts os acc pools completed windows =
      excluded_from [] (cohorts_from acc pools completed windows [] os)

  unfoldable pub exclude_blocks : List Bytes → List Bytes → List (Observation F) → List Bytes
  exclude_blocks failed excluded [] = excluded
  exclude_blocks failed excluded (o ∷ os) =
      exclude_blocks failed
        (if has o.block_id failed then include (observation_key o) excluded else excluded) os

  -- expandMultiRegionObserverFailures
  unfoldable pub expand_multi_region_observer_failures :
      List (Observation F) → List Bytes → List Bytes
  unfolding multi_region_failed_blocks exclude_blocks
  expand_multi_region_observer_failures os excluded =
      let failed = multi_region_failed_blocks excluded in
      if length failed == 0 then excluded else exclude_blocks failed excluded os

  -- detectMultiRegionObserverFailuresPrepared: the failed blocks, and the cohorts that are excluded
  unfoldable pub detect_multi_region_observer_failures :
      List Pool → List (Observation F) → List Bytes × List Bytes
  unfolding expand_multi_region_observer_failures unhealthy_regional_cohorts canonical_windows_from
  detect_multi_region_observer_failures pools os =
      let completed = completed_scheduled_runs os in
      let acc = accumulators_from [] pools in
      let by_id = pools_by_id_from [] pools in
      let windows = canonical_windows_from acc by_id completed [] os in
      let excluded = unhealthy_regional_cohorts os acc by_id completed windows in
      (multi_region_failed_blocks excluded, expand_multi_region_observer_failures os excluded)
