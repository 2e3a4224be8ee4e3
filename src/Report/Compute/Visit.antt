-- ===== src/Report/Compute/Visit.antt =====
-- The loop of computePrepared over the observations, of internal/report/report.go.
use stratum_stats.Base.{
  ℕ, suc, Bool, true, ◌&&◌, ◌||◌, not, ◌==◌, Bytes, bytes, eqb, is_empty, lexb, List, [], ◌∷◌, ◌++◌,
  Option, none, some, if◌then◌else◌, ltb, find, insert, bytes_eq, has, include, Float,
}
use stratum_stats.Model.{Time, Pool, Observation}
use stratum_stats.Report.Keys.{observation_key, endpoint_report_key}
use stratum_stats.Report.Accumulator.{
  Accumulator, MetricSample, CoinbaseSample, observation_accumulator, is_protocol,
  scoreable_block_observation, is_scoreable_block, within_latency_window,
}
use stratum_stats.Report.Cohort.{is_at, is_sooner}
use stratum_stats.Report.Timing.{add_protocol_observation}

-- what the loop reads
pub record Context : Type 0 where
  pub pools : List (Bytes × Pool)
  pub completed : List Bytes
  pub windows : List (Bytes × Time)
  pub excluded : List Bytes
  pub now : Time

-- what the loop changes
pub record Totals (F : Type 0) : Type 0 where
  pub acc : List (Bytes × Accumulator F)
  pub observed_blocks : List Bytes
  pub eligible_endpoint_samples : List Bytes
  pub template_deliveries : List Bytes
  pub latest_block_id : Bytes
  pub latest_block_height : ℕ
  pub latest_block_observed_at : Time

module _ {F : Type 0} where
  unfoldable pub no_totals : List (Bytes × Accumulator F) → Totals F
  no_totals acc = record {
    acc = acc;
    observed_blocks = [];
    eligible_endpoint_samples = [];
    template_deliveries = [];
    latest_block_id = [];
    latest_block_height = 0;
    latest_block_observed_at = 0;
  }

  -- recordLatestObservation
  unfoldable pub record_latest_observation : Time → Accumulator F → Accumulator F
  record_latest_observation at a = record a {
    last_observed_at =
        if not (at == 0) && ltb a.last_observed_at at then at else a.last_observed_at;
  }

  -- whether a sample replaces the one that a map has
  abbrev pub replaces : Observation F → ℕ → Option (CoinbaseSample F) → Bool
  replaces o order none = true
  replaces o order (some old) =
      ltb old.observation.observed_at o.observed_at
      || (o.observed_at == old.observation.observed_at && ltb old.order order)

  unfoldable pub add_sample :
      Bool → Observation F → ℕ → List (Bytes × CoinbaseSample F) → List (Bytes × CoinbaseSample F)
  add_sample wanted o order samples =
      if wanted && replaces o order (find (observation_key o) samples)
      then insert (observation_key o) (record { observation = o; order = order }) samples
      else samples

  -- the newest block of the snapshot
  unfoldable pub record_latest_block : Observation F → Totals F → Totals F
  record_latest_block o t =
      if ltb t.latest_block_observed_at o.observed_at
        || (o.observed_at == t.latest_block_observed_at && lexb t.latest_block_id o.block_id)
      then record t {
        latest_block_id = o.block_id;
        latest_block_height = o.block_height;
        latest_block_observed_at = o.observed_at;
      }
      else if o.observed_at == t.latest_block_observed_at
          && (eqb o.block_id t.latest_block_id && ltb 0 o.block_height)
      then record t { latest_block_height = o.block_height }
      else t

  -- observedBlocks, which is extended before the endpoint is looked up
  unfoldable pub observe_block : Context → Observation F → Totals F → Totals F
  unfolding scoreable_block_observation
  observe_block c o t =
      let counted =
        not (is_protocol o)
        && (not (is_empty o.block_id)
            && (scoreable_block_observation o c.completed
                && not (has (observation_key o) c.excluded))) in
      record t {
        observed_blocks =
            if counted then include o.block_id t.observed_blocks else t.observed_blocks;
      }

  -- the guards behind which a block observation counts
  unfoldable pub is_counted : Context → Observation F → Bool
  unfolding is_scoreable_block
  is_counted c o =
      is_scoreable_block c.completed o
      && (is_at o.observed_at (find (observation_key o) c.windows)
          && not (has (observation_key o) c.excluded))

module _ (fl : Float) where
  open fl use {F, of_ℕ}

  abbrev pub is_lower : F → Option (MetricSample F) → Bool
  is_lower offset none = true
  is_lower offset (some old) = fl.ltb offset old.value

  -- `o.Arrived && o.OffsetMS >= 0`
  abbrev pub is_delivered : Observation F → Bool
  is_delivered o = o.arrived && fl.leb (of_ℕ 0) o.offset_ms

  unfoldable pub add_offset :
      Observation F → ℕ → List (Bytes × MetricSample F) → List (Bytes × MetricSample F)
  add_offset o order offsets =
      if is_delivered o && is_lower o.offset_ms (find (observation_key o) offsets)
      then insert (observation_key o)
          (record {
            at = o.observed_at;
            order = order;
            value = o.offset_ms;
            block_id = o.block_id;
            win = fl.eq o.offset_ms (of_ℕ 0);
          })
          offsets
      else offsets

  -- what a block observation changes for its endpoint
  unfoldable pub add_block_observation : Observation F → ℕ → Accumulator F → Accumulator F
  unfolding add_sample add_offset record_latest_observation
  add_block_observation o order before =
      let a = record_latest_observation o.observed_at before in
      record a {
        blocks = include (observation_key o) a.blocks;
        block_times =
            if is_sooner o.observed_at (find (observation_key o) a.block_times)
            then insert (observation_key o) o.observed_at a.block_times
            else a.block_times;
        invalid_jobs =
            add_sample (eqb o.error_category (bytes "invalid_job")) o order a.invalid_jobs;
        offsets = add_offset o order a.offsets;
        coinbase = add_sample (o.arrived && o.coinbase_analyzed) o order a.coinbase;
        tls = if o.tls then true else a.tls;
      }

  -- what a protocol observation changes
  unfoldable pub add_protocol : Context → Observation F → Accumulator F → Accumulator F
  unfolding add_protocol_observation record_latest_observation within_latency_window
  add_protocol c o before =
      let a = record_latest_observation o.observed_at before in
      if within_latency_window o.observed_at c.now then add_protocol_observation fl o a else a

  -- `globalKey`
  abbrev pub global_key : Observation F → Accumulator F → Bytes
  global_key o a = endpoint_report_key o.pool_id a.address a.endpoint.tls ++ (0 ∷ observation_key o)

  -- a counted observation
  unfoldable pub count_block : Observation F → ℕ → Bytes → Accumulator F → Totals F → Totals F
  unfolding record_latest_block add_block_observation
  count_block o order key a before =
      let t = record_latest_block o before in
      record t {
        acc = insert key (add_block_observation o order a) t.acc;
        eligible_endpoint_samples = include (global_key o a) t.eligible_endpoint_samples;
        template_deliveries =
            if is_delivered o
            then include (global_key o a) t.template_deliveries
            else t.template_deliveries;
      }

  -- an observation whose endpoint is configured
  abbrev pub visit_at :
      Context → Observation F → ℕ → Option (Bytes × Accumulator F) → Totals F → Totals F
  visit_at c o order none t = t
  visit_at c o order (some (key, a)) t =
      if is_protocol o
      then record t { acc = insert key (add_protocol c o a) t.acc }
      else if is_counted c o
      then count_block o order key a t
      else t

  -- one round of the loop
  unfoldable pub visit : Context → Observation F → ℕ → Totals F → Totals F
  unfolding observe_block observation_accumulator
  visit c o order before =
      let t = observe_block c o before in
      visit_at c o order (observation_accumulator t.acc c.pools o) t

  unfoldable pub visit_all : Context → Totals F → ℕ → List (Observation F) → Totals F
  unfolding visit
  visit_all c t order [] = t
  visit_all c t order (o ∷ os) = visit_all c (visit c o order t) (suc order) os
