-- ===== src/Report/Evidence.antt =====
-- What build of internal/report/report.go reads from the samples of an endpoint: latencies, fees, the worker's
-- address, the newest coinbase, the newest invalid job.
use stratum_stats.Base.{
  ℕ, ◌+◌, ℤ, pos, eq_ℕ, Bool, false, ◌&&◌, ◌||◌, ◌==◌, Bytes, bytes, eqb, List, [], ◌∷◌, ◌++◌,
  Option, none, some, length, if◌then◌else◌, ltb, Float,
}
use stratum_stats.Model.{Time, Pool, CoinbaseOutput, Observation}
use stratum_stats.Model.Reports.{PayoutDestination}
use stratum_stats.Report.Accumulator.{MetricSample, CoinbaseSample, within_latency_window}
use stratum_stats.Report.Metrics.{round}

abbrev pub fee_history_limit : ℕ
fee_history_limit = 12

abbrev pub values_of : {V : Type 0} → List (Bytes × V) → List V
values_of [] = []
values_of ((k, v) ∷ m) = v ∷ values_of m

-- a nonzero time
abbrev pub nonzero : Time → Option Time
nonzero at = if at == 0 then none else some at

-- `len(feeSamples)` values, each rounded, without those that repeat the one before; newest first
pub record FeeChanges (F : Type 0) : Type 0 where
  pub distinct : List F
  pub changes : ℕ
  pub last_changed_at : Option Time

-- the invalid job that the report shows
pub record InvalidJob : Type 0 where
  pub at : Option Time
  pub block_id : Bytes
  pub order : Option ℕ

-- the newest by time and, at the same time, by order
abbrev pub is_newer : Time → ℕ → Time → ℕ → Bool
is_newer at order old_at old_order = ltb old_at at || (at == old_at && ltb old_order order)

module _ {F : Type 0} where
  -- the samples of the latency window
  unfoldable pub latency_samples : Time → List (MetricSample F) → List (MetricSample F)
  unfolding within_latency_window
  latency_samples now [] = []
  latency_samples now (s ∷ samples) =
      let rest = latency_samples now samples in
      if within_latency_window s.at now then s ∷ rest else rest

  unfoldable pub wins_of : List (MetricSample F) → ℕ
  wins_of [] = 0
  wins_of (s ∷ samples) = let rest = wins_of samples in if s.win then rest + 1 else rest

  -- `workerAddressMatches`
  unfoldable pub worker_address_matches : List (CoinbaseSample F) → ℕ
  worker_address_matches [] = 0
  worker_address_matches (s ∷ samples) =
      let rest = worker_address_matches samples in
      if s.observation.worker_wallet_in_coinbase then rest + 1 else rest

  abbrev pub newer_coinbase :
      CoinbaseSample F → Option (CoinbaseSample F) → Option (CoinbaseSample F)
  newer_coinbase s none = some s
  newer_coinbase s (some old) =
      if is_newer s.observation.observed_at s.order old.observation.observed_at old.order
      then some s
      else some old

  unfoldable pub latest_coinbase :
      Option (CoinbaseSample F) → List (CoinbaseSample F) → Option (CoinbaseSample F)
  latest_coinbase latest [] = latest
  latest_coinbase latest (s ∷ samples) = latest_coinbase (newer_coinbase s latest) samples

  unfoldable pub newer_invalid : CoinbaseSample F → InvalidJob → InvalidJob
  newer_invalid s j =
      let found : InvalidJob = record {
        at = some s.observation.observed_at;
        block_id = s.observation.block_id;
        order = some s.order;
      } in
      elim j.at [
        | none ↦ found
        | some at ↦ elim j.order [
          | none ↦
              if ltb at s.observation.observed_at || s.observation.observed_at == at
              then found
              else j
          | some order ↦ if is_newer s.observation.observed_at s.order at order then found else j
        ]
      ]

  unfoldable pub latest_invalid_job : InvalidJob → List (CoinbaseSample F) → InvalidJob
  unfolding newer_invalid
  latest_invalid_job latest [] = latest
  latest_invalid_job latest (s ∷ samples) = latest_invalid_job (newer_invalid s latest) samples

-- `workerAddressStatus`
unfoldable pub worker_address_status_of : ℕ → ℕ → Bytes
worker_address_status_of samples matches =
    if samples == 0
    then bytes "unknown"
    else if matches == samples
    then bytes "always_observed"
    else if matches == 0
    then bytes "not_observed"
    else bytes "varied"

-- `latestCoinbaseOutputCount`
unfoldable pub output_count_of : {F : Type 0} → Observation F → ℤ
output_count_of o =
    if eq_ℕ o.coinbase_output_count 0 && ltb 0 (length o.coinbase_outputs)
    then pos (length o.coinbase_outputs)
    else o.coinbase_output_count

module _ (fl : Float) where
  open fl use {F, of_ℕ, add, sub, mul, div}

  -- the fee of a sample, where it is a percentage
  abbrev pub fee_sample : CoinbaseSample F → Option F → List (MetricSample F)
  fee_sample s none = []
  fee_sample s (some fee) =
      if fl.leb (of_ℕ 0) fee && fl.leb fee (of_ℕ 100)
      then record {
        at = s.observation.observed_at;
        order = s.order;
        value = fee;
        block_id = [];
        win = false;
      }
        ∷ []
      else []

  unfoldable pub fee_samples : Pool → List (CoinbaseSample F) → List (MetricSample F)
  fee_samples pool [] = []
  fee_samples pool (s ∷ samples) =
      (if eqb pool.category (bytes "solo")
        then fee_sample s s.observation.estimated_pool_fee_pct
        else [])
      ++ fee_samples pool samples

  abbrev pub changed_from : MetricSample F → F → FeeChanges F → List F → FeeChanges F
  changed_from s value c [] = record c { distinct = value ∷ [] }
  changed_from s value c (last ∷ earlier) = if fl.eq last value then c else record {
    distinct = value ∷ last ∷ earlier;
    changes = c.changes + 1;
    last_changed_at = if s.at == 0 then c.last_changed_at else some s.at;
  }

  -- the loop over the fee samples, which are sorted
  unfoldable pub fee_changes : FeeChanges F → List (MetricSample F) → FeeChanges F
  unfolding round
  fee_changes c [] = c
  fee_changes c (s ∷ samples) =
      fee_changes (changed_from s (round fl s.value 2) c c.distinct) samples

  -- what the report shows of the outputs, but for those that pay the worker
  unfoldable pub payout_destinations : ℕ → List CoinbaseOutput → List (PayoutDestination F)
  unfolding round
  payout_destinations total [] = []
  payout_destinations total (o ∷ outputs) =
      let rest = payout_destinations total outputs in
      if o.worker
      then rest
      else record {
        value_sats = o.value_sats;
        percentage =
            if ltb 0 total
            then round fl (div (mul (of_ℕ 100) (of_ℕ o.value_sats)) (of_ℕ total)) 4
            else of_ℕ 0;
        script_pub_key = o.script_pub_key;
        script_pub_key_truncated = o.script_pub_key_truncated;
        address = o.address;
        script_type = o.script_type;
      }
        ∷ rest
