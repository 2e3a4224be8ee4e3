-- ===== src/Report/Compute/Consistent.antt =====
-- The counts of a snapshot, and of the reports in it, agree with each other.
use stratum_stats.Base.{
  ℕ, suc, ◌≡◌, refl, Bool, true, false, ◌&&◌, Bytes, List, [], ◌∷◌, Option, none, some,
  if◌then◌else◌, find, insert, bytes_eq, include, Float, arith, NoRepeats, IsIn, include-NoRepeats,
  include-IsIn, IsIn-include, has-include, ltb, lexb, ◌==◌, ◌||◌, eqb, AllValues, insert-AllValues,
}
use stratum_stats.Model.{Pool, Observation, Time}
use stratum_stats.Report.Accumulator.{
  Accumulator, MetricSample, new_accumulator, accumulators_from, observation_accumulator,
  is_protocol, within_latency_window,
}
use stratum_stats.Report.Accumulator.Values.{
  HoldsAt, observation_accumulator-HoldsAt, accumulators_from-AllValues,
}
use stratum_stats.Report.Keys.{observation_key}
use stratum_stats.Report.Metrics.{keys_of}
use stratum_stats.Report.Timing.{add_protocol_observation}
use stratum_stats.Report.Timing.Counts.{IsCounted, add_protocol_observation-IsCounted}
use stratum_stats.Report.Compute.Visit.{
  Totals, Context, no_totals, record_latest_observation, record_latest_block, observe_block,
  add_block_observation, add_offset, add_protocol, global_key, count_block, visit_at, visit,
  visit_all, is_delivered, is_counted, is_lower,
}

keys_of-insert :
    {V : Type 0} (k : Bytes) (v : V) (m : List (Bytes × V))
    → keys_of (insert k v m) ≡ include k (keys_of m)
keys_of-insert k v [] = refl
keys_of-insert k v ((j, w) ∷ m) = ground (arith, keys_of-insert k v m)

-- A set within another, which gains an element if the other does.
abbrev pub IsSubset : List Bytes → List Bytes → Type 0
IsSubset s t = NoRepeats s × IsIn s t

include-IsSubset :
    (k : Bytes) (s t : List Bytes) → IsSubset s t → IsSubset (include k s) (include k t)
include-IsSubset k s t h = (
  include-NoRepeats k s h.0,
  include-IsIn k s (include k t) (IsIn-include k s t h.1)
      (ground (arith, has-include k k t, refl_key k)),
)
  where
    refl_key : (k : Bytes) → bytes_eq.same k k ≡ true
    refl_key k = (bytes_eq.same_iff k k).1 refl

grow-IsSubset : (k : Bytes) (s t : List Bytes) → IsSubset s t → IsSubset s (include k t)
grow-IsSubset k s t h = (h.0, IsIn-include k s t h.1)

-- An accumulator whose deliveries are among its checks, and whose timings add up.
abbrev pub IsSound : {F : Type 0} → Accumulator F → Type 0
IsSound a = IsSubset (keys_of a.offsets) a.blocks × AllValues IsCounted a.timings

module _ (fl : Float) where
  open fl use {F}

  -- the totals whose accumulators are sound, and whose deliveries are among their samples
  abbrev pub IsConsistent : Totals F → Type 0
  IsConsistent t =
      AllValues IsSound t.acc × IsSubset t.template_deliveries t.eligible_endpoint_samples

  add_offset-IsSubset :
      (o : Observation F) (order : ℕ) (offsets : List (Bytes × MetricSample F))
      (blocks : List Bytes)
      → IsSubset (keys_of offsets) blocks
      → IsSubset (keys_of (add_offset fl o order offsets)) (include (observation_key o) blocks)
  unfolding add_offset
  add_offset-IsSubset o order offsets blocks h =
      go (is_delivered fl o && is_lower fl o.offset_ms (find (observation_key o) offsets))
    where
      go :
          (b : Bool)
          → IsSubset
              (keys_of (
                if b
                then insert
                    (observation_key o)
                    (record {
                      at = o.observed_at;
                      order = order;
                      value = o.offset_ms;
                      block_id = o.block_id;
                      win = fl.eq o.offset_ms (fl.of_ℕ 0);
                    })
                    offsets
                else offsets))
              (include (observation_key o) blocks)
      go true =
          rw
            (keys_of-insert (observation_key o)
              (record {
                at = o.observed_at;
                order = order;
                value = o.offset_ms;
                block_id = o.block_id;
                win = fl.eq o.offset_ms (fl.of_ℕ 0);
              })
              offsets)
            (include-IsSubset (observation_key o) (keys_of offsets) blocks h)
      go false = grow-IsSubset (observation_key o) (keys_of offsets) blocks h

  record_latest_observation-IsSound :
      (at : Time) (a : Accumulator F) → IsSound a → IsSound (record_latest_observation at a)
  unfolding record_latest_observation
  record_latest_observation-IsSound at a h = h

  add_block_observation-IsSound :
      (o : Observation F) (order : ℕ) (a : Accumulator F)
      → IsSound a
      → IsSound (add_block_observation fl o order a)
  unfolding add_block_observation record_latest_observation
  add_block_observation-IsSound o order a h =
      (add_offset-IsSubset o order a.offsets a.blocks h.0, h.1)

  add_protocol-IsSound :
      (c : Context) (o : Observation F) (a : Accumulator F)
      → IsSound a
      → IsSound (add_protocol fl c o a)
  unfolding add_protocol record_latest_observation add_protocol_observation
  add_protocol-IsSound c o a h = go (within_latency_window o.observed_at c.now)
    where
      go :
          (b : Bool)
          → IsSound (
              if b
              then add_protocol_observation fl o (record_latest_observation o.observed_at a)
              else record_latest_observation o.observed_at a)
      go true = (
        h.0,
        add_protocol_observation-IsCounted fl o (record_latest_observation o.observed_at a) h.1,
      )
      go false = h

  record_latest_block-IsConsistent :
      (o : Observation F) (t : Totals F) → IsConsistent t → IsConsistent (record_latest_block o t)
  unfolding record_latest_block
  record_latest_block-IsConsistent o t h =
      go
        (ltb t.latest_block_observed_at o.observed_at
          || (o.observed_at == t.latest_block_observed_at && lexb t.latest_block_id o.block_id))
        (o.observed_at == t.latest_block_observed_at
          && (eqb o.block_id t.latest_block_id && ltb 0 o.block_height))
    where
      go :
          (newer same : Bool)
          → IsConsistent (
              if newer
              then record t {
                latest_block_id = o.block_id;
                latest_block_height = o.block_height;
                latest_block_observed_at = o.observed_at;
              }
              else if same
              then record t { latest_block_height = o.block_height }
              else t)
      go true same = h
      go false true = h
      go false false = h

  count_block-IsConsistent :
      (o : Observation F) (order : ℕ) (key : Bytes) (a : Accumulator F) (before : Totals F)
      → IsSound a
      → IsConsistent before
      → IsConsistent (count_block fl o order key a before)
  unfolding count_block
  count_block-IsConsistent o order key a before ha before_h =
      let t = record_latest_block o before in
      let h : IsConsistent t = record_latest_block-IsConsistent o before before_h in
      (
        insert-AllValues IsSound key (add_block_observation fl o order a) t.acc
            (add_block_observation-IsSound o order a ha) h.0,
        go (is_delivered fl o) t h.1,
      )
    where
      go :
          (b : Bool) (t : Totals F)
          → IsSubset t.template_deliveries t.eligible_endpoint_samples
          → IsSubset
              (if b
                then include (global_key fl o a) t.template_deliveries
                else t.template_deliveries)
              (include (global_key fl o a) t.eligible_endpoint_samples)
      go true t h =
          include-IsSubset (global_key fl o a) t.template_deliveries t.eligible_endpoint_samples h
      go false t h =
          grow-IsSubset (global_key fl o a) t.template_deliveries t.eligible_endpoint_samples h

  visit_at-IsConsistent :
      (c : Context) (o : Observation F) (order : ℕ) (found : Option (Bytes × Accumulator F))
      (t : Totals F)
      → HoldsAt IsSound found
      → IsConsistent t
      → IsConsistent (visit_at fl c o order found t)
  visit_at-IsConsistent c o order none t ha h = h
  visit_at-IsConsistent c o order (some (key, a)) t ha h = go (is_protocol o) (is_counted c o)
    where
      go :
          (protocol counted : Bool)
          → IsConsistent (
              if protocol
              then record t { acc = insert key (add_protocol fl c o a) t.acc }
              else if counted
              then count_block fl o order key a t
              else t)
      go true counted = (
        insert-AllValues IsSound key (add_protocol fl c o a) t.acc (add_protocol-IsSound c o a ha)
            h.0,
        h.1,
      )
      go false true = count_block-IsConsistent o order key a t ha h
      go false false = h

  visit-IsConsistent :
      (c : Context) (o : Observation F) (order : ℕ) (t : Totals F)
      → IsConsistent t
      → IsConsistent (visit fl c o order t)
  unfolding visit observe_block
  visit-IsConsistent c o order t h =
      visit_at-IsConsistent c o order (observation_accumulator t.acc c.pools o)
        (observe_block c o t) (observation_accumulator-HoldsAt IsSound t.acc c.pools o h.0) h

  pub visit_all-IsConsistent :
      (c : Context) (os : List (Observation F)) (order : ℕ) (t : Totals F)
      → IsConsistent t
      → IsConsistent (visit_all fl c t order os)
  unfolding visit_all
  visit_all-IsConsistent c [] order t h = h
  visit_all-IsConsistent c (o ∷ os) order t h =
      visit_all-IsConsistent c os (suc order) (visit fl c o order t)
        (visit-IsConsistent c o order t h)

  pub no_totals-IsConsistent :
      (pools : List Pool) → IsConsistent (no_totals (accumulators_from [] pools))
  unfolding no_totals new_accumulator
  no_totals-IsConsistent pools =
      (accumulators_from-AllValues IsSound (λ pool e. ((tt, tt), tt)) pools [] tt, (tt, tt))
