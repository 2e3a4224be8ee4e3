-- ===== src/Report/Accumulator.antt =====
-- The accumulators of internal/report/report.go: what the reports count for each endpoint.
pub mod Values
use stratum_stats.Base.{
  ℕ, ℤ, ◌+◌, Bool, true, false, ◌&&◌, ◌||◌, not, Bytes, eqb, is_empty, List, [], ◌∷◌, ◌++◌, Option,
  none, some, length, if◌then◌else◌, find, insert, bytes_eq, pos, leb, ltb, ◌-◌, ◌*◌, ◌==◌, has,
  include, bytes, eq_ℕ,
}
use stratum_stats.Model.{
  Time, second, Endpoint, Pool, Observation, source_remote_scheduled, record_type_protocol,
  record_type_probe_run,
}
use stratum_stats.Report.Keys.{endpoint_address, endpoint_report_key}

pub record MetricSample (F : Type 0) : Type 0 where
  pub at : Time
  pub order : ℕ
  pub value : F
  pub block_id : Bytes
  pub win : Bool

pub record CoinbaseSample (F : Type 0) : Type 0 where
  pub observation : Observation F
  pub order : ℕ

-- timingAccumulator, of internal/report/protocol.go
pub record TimingAccumulator (F : Type 0) : Type 0 where
  pub attempts : ℕ
  pub durations : List F
  pub rejected : ℕ
  pub unsupported : ℕ
  pub timeouts : ℕ
  pub errors : ℕ
  pub certificate_errors : ℕ

pub record Accumulator (F : Type 0) : Type 0 where
  pub pool : Pool
  pub endpoint : Endpoint
  pub address : Bytes
  pub last_observed_at : Time
  pub blocks : List Bytes
  pub block_times : List (Bytes × Time)
  pub offsets : List (Bytes × MetricSample F)
  pub tls : Bool
  pub coinbase : List (Bytes × CoinbaseSample F)
  pub invalid_jobs : List (Bytes × CoinbaseSample F)
  pub timings : List (Bytes × TimingAccumulator F)

-- model.Endpoint{}
abbrev pub no_endpoint : Endpoint
no_endpoint = record { host = []; port = pos 0; tls = false; region = []; continent = [] }

-- 24 * time.Hour
abbrev pub latency_window : ℕ
latency_window = 24 * 3600 * second

unfoldable pub within_latency_window : Time → Time → Bool
within_latency_window observed_at now =
    not (ltb observed_at (now - latency_window)) && not (ltb now observed_at)

-- the map `poolsByID`
unfoldable pub pools_by_id_from : List (Bytes × Pool) → List Pool → List (Bytes × Pool)
pools_by_id_from pools [] = pools
pools_by_id_from pools (p ∷ ps) = pools_by_id_from (insert p.id p pools) ps

-- the key of the only endpoint that a pool-only observation can be about
unfoldable pub only_endpoint_key : Pool → Option Bytes
only_endpoint_key pool = elim pool.endpoints [
  | [] ↦ some (endpoint_report_key pool.id [] false)
  | e ∷ es ↦ elim es [
    | [] ↦ some (endpoint_report_key pool.id (endpoint_address e) e.tls)
    | _ ∷ _ ↦ none
  ]
]

module _ {F : Type 0} where
  unfoldable pub new_accumulator : Pool → Endpoint → Accumulator F
  new_accumulator pool endpoint = record {
    pool = pool;
    endpoint = endpoint;
    address = endpoint_address endpoint;
    last_observed_at = 0;
    blocks = [];
    block_times = [];
    offsets = [];
    tls = false;
    coinbase = [];
    invalid_jobs = [];
    timings = [];
  }

  unfoldable pub add_endpoint_accumulators :
      List (Bytes × Accumulator F) → Pool → List Endpoint → List (Bytes × Accumulator F)
  add_endpoint_accumulators acc pool [] = acc
  add_endpoint_accumulators acc pool (e ∷ es) =
      add_endpoint_accumulators
        (insert (endpoint_report_key pool.id (endpoint_address e) e.tls) (new_accumulator pool e)
          acc)
        pool es

  -- the loop over the pools: one accumulator for each endpoint, and one for a pool without any
  unfoldable pub accumulators_from :
      List (Bytes × Accumulator F) → List Pool → List (Bytes × Accumulator F)
  unfolding add_endpoint_accumulators
  accumulators_from acc [] = acc
  accumulators_from acc (p ∷ ps) =
      accumulators_from
        (if length p.endpoints == 0
          then insert (endpoint_report_key p.id [] false) (new_accumulator p no_endpoint) acc
          else add_endpoint_accumulators acc p p.endpoints)
        ps

  abbrev pub with_key : List (Bytes × Accumulator F) → Option Bytes → Option (Bytes × Accumulator F)
  with_key acc none = none
  with_key acc (some key) = elim (find key acc) [ none ↦ none | some a ↦ some (key, a) ]

  -- observationAccumulator: the accumulator, with the key that it has in the map
  unfoldable pub observation_accumulator :
      List (Bytes × Accumulator F)
      → List (Bytes × Pool)
      → Observation F
      → Option (Bytes × Accumulator F)
  unfolding only_endpoint_key
  observation_accumulator acc pools o =
      if not (is_empty o.endpoint)
      then with_key acc (some (endpoint_report_key o.pool_id o.endpoint o.tls))
      else elim (find o.pool_id pools) [
        | none ↦ none
        | some pool ↦ with_key acc (only_endpoint_key pool)
      ]

  -- `o.RecordType == model.RecordTypeProtocol || o.ProtocolMethod != ""`
  abbrev pub is_protocol : Observation F → Bool
  is_protocol o = eqb o.record_type record_type_protocol || not (is_empty o.protocol_method)

  -- the test of completedScheduledRuns
  unfoldable pub completes_run : Observation F → Bool
  completes_run o =
      eqb o.source source_remote_scheduled
      && (eqb o.record_type record_type_probe_run
          && (not (is_empty o.run_id)
              && (eqb o.run_status (bytes "ok") && eq_ℕ o.dropped_observations 0)))

  unfoldable pub completed_from : List Bytes → List (Observation F) → List Bytes
  unfolding completes_run
  completed_from completed [] = completed
  completed_from completed (o ∷ os) =
      completed_from (if completes_run o then include o.run_id completed else completed) os

  -- completedScheduledRuns
  unfoldable pub completed_scheduled_runs : List (Observation F) → List Bytes
  unfolding completed_from
  completed_scheduled_runs = completed_from []

  unfoldable pub scoreable_block_observation : Observation F → List Bytes → Bool
  scoreable_block_observation o completed =
      not (eqb o.source source_remote_scheduled) || has o.run_id completed

  -- what the loops of the report ask of a block observation
  unfoldable pub is_scoreable_block : List Bytes → Observation F → Bool
  unfolding scoreable_block_observation
  is_scoreable_block completed o =
      not (is_protocol o)
      && (o.eligible && (not (is_empty o.block_id) && scoreable_block_observation o completed))
