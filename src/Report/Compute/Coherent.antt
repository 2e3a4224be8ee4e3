-- ===== src/Report/Compute/Coherent.antt =====
-- The numbers that the reports of internal/report/report.go publish agree with each other.
use stratum_stats.Base.{
  ◌≤◌, ◌≡◌, refl, subst, Bool, true, false, Bytes, eqb, eqb_iff, List, [], ◌∷◌, Option, none, some,
  length, bytes_eq, has, include, Float, arith, IsIn, include-NoRepeats, include-IsIn, has-include,
  NoRepeats-length, AllValues, All, All-perm, sort_by-Permᴰ, Bool-cases, inl, inr,
}
use stratum_stats.Model.{
  Time, Pool, Observation, protocol_connect, protocol_tls_handshake, protocol_subscribe,
  protocol_authorize,
}
use stratum_stats.Model.Reports.{PoolReport}
use stratum_stats.Report.Keys.{observation_key_parts}
use stratum_stats.Report.Accumulator.{Accumulator, CoinbaseSample}
use stratum_stats.Report.Metrics.{keys_of, block_ids_from, unique_block_counts}
use stratum_stats.Report.Timing.Counts.{IsAccounted, timing_stats-IsAccounted}
use stratum_stats.Report.Score.{apply_overall_score}
use stratum_stats.Report.Build.{
  with_latency, with_timings, with_fees, with_payouts, with_invalid_jobs, empty_report, build,
}
use stratum_stats.Report.Evidence.{values_of, latest_coinbase}
use stratum_stats.Report.Compute.{
  compute_prepared, is_listed_before, totals_of, reports_of, context_of,
}
use stratum_stats.Report.Compute.Consistent.{
  IsSubset, IsSound, visit_all-IsConsistent, no_totals-IsConsistent,
}

has-block_ids_from :
    (b : Bytes) (keys ids : List Bytes) → has b ids ≡ true → has b (block_ids_from ids keys) ≡ true
has-block_ids_from b [] ids h = h
has-block_ids_from b (key ∷ keys) ids h =
    let id = (observation_key_parts key).1 in
    has-block_ids_from b keys (include id ids) (ground (arith, has-include id b ids))

block_ids_from-has :
    (key : Bytes) (keys ids : List Bytes)
    → has key keys ≡ true
    → has (observation_key_parts key).1 (block_ids_from ids keys) ≡ true
block_ids_from-has key [] ids h = ground (arith, h)
block_ids_from-has key (k ∷ keys) ids h =
    let id = (observation_key_parts k).1 in
    elim (Bool-cases (eqb k key)) [
      | inl same ↦
          subst (λ j. has (observation_key_parts j).1 (block_ids_from (include id ids) keys) ≡ true)
            ((eqb_iff k key).0 same)
            (has-block_ids_from id keys (include id ids)
              (ground (arith, has-include id id ids, (eqb_iff id id).1 refl)))
      | inr other ↦ block_ids_from-has key keys (include id ids) (rw other at h)
    ]

block_ids_from-IsSubset :
    (blocks keys ids : List Bytes)
    → IsIn keys blocks
    → IsSubset ids (block_ids_from [] blocks)
    → IsSubset (block_ids_from ids keys) (block_ids_from [] blocks)
block_ids_from-IsSubset blocks [] ids inside h = h
block_ids_from-IsSubset blocks (key ∷ keys) ids inside h =
    let id = (observation_key_parts key).1 in
    block_ids_from-IsSubset blocks keys (include id ids) inside.1 (
      include-NoRepeats id ids h.0,
      include-IsIn id ids (block_ids_from [] blocks) h.1
          (block_ids_from-has key blocks [] inside.0),
    )

IsSubset-length : (s t : List Bytes) → IsSubset s t → length s ≤ length t
IsSubset-length s t h = NoRepeats-length s t h.0 h.1

length-keys_of : {V : Type 0} (m : List (Bytes × V)) → length (keys_of m) ≡ length m
length-keys_of [] = refl
length-keys_of ((k, v) ∷ m) = ground (arith, length-keys_of m)

-- The deliveries of a report are among its checks, its arrivals among its blocks, and the outcomes of each method add up
-- to its attempts.
abbrev pub IsCoherent : {F : Type 0} → PoolReport F → Type 0
IsCoherent r =
    (r.delivery_checks ≤ r.eligible_checks)
    × (r.arrivals ≤ r.blocks)
    × IsAccounted r.connect_timing
    × IsAccounted r.tls_timing
    × IsAccounted r.subscribe_timing
    × IsAccounted r.authorize_timing

module _ (fl : Float) where
  open fl use {F}

  delivered : (a : Accumulator F) → IsSound a → length a.offsets ≤ length a.blocks
  delivered a h =
      subst (λ n. n ≤ length a.blocks) (length-keys_of a.offsets)
        (IsSubset-length (keys_of a.offsets) a.blocks h.0)

  with_latency-arrivals :
      (a : Accumulator F) (now : Time) (combine_vantages : Bool) (r : PoolReport F)
      → IsSound a
      → let report = with_latency fl a now combine_vantages r in
        (report.delivery_checks ≤ report.eligible_checks) × (report.arrivals ≤ report.blocks)
  unfolding with_latency unique_block_counts
  with_latency-arrivals a now true r h = (
    delivered a h,
    IsSubset-length (block_ids_from [] (keys_of a.offsets)) (block_ids_from [] a.blocks)
        (block_ids_from-IsSubset a.blocks (keys_of a.offsets) [] h.0.1 (tt, tt)),
  )
  with_latency-arrivals a now false r h = (delivered a h, delivered a h)

  with_payouts-IsCoherent :
      (s : Option (CoinbaseSample F)) (r : PoolReport F)
      → IsCoherent r
      → IsCoherent (with_payouts fl s r)
  unfolding with_payouts
  with_payouts-IsCoherent none r h = h
  with_payouts-IsCoherent (some s) r h = h

  build-IsCoherent :
      (a : Accumulator F) (now : Time) (combine_vantages : Bool)
      → IsSound a
      → IsCoherent (build fl a now combine_vantages)
  unfolding build apply_overall_score with_invalid_jobs with_fees with_timings
  build-IsCoherent a now combine_vantages h =
      let r = with_latency fl a now combine_vantages (empty_report fl a) in
      let (checks, arrivals) = with_latency-arrivals a now combine_vantages (empty_report fl a) h in
      let timing = λ (method : Bytes). timing_stats-IsAccounted fl a method h.1 in
      with_payouts-IsCoherent (latest_coinbase none (values_of a.coinbase))
        (with_fees fl a (with_timings fl a r))
        (
          checks,
          arrivals,
          timing protocol_connect,
          timing protocol_tls_handshake,
          timing protocol_subscribe,
          timing protocol_authorize,
        )

  reports_of-IsCoherent :
      (now : Time) (combine_vantages : Bool) (acc : List (Bytes × Accumulator F))
      → AllValues IsSound acc
      → All IsCoherent (reports_of fl now combine_vantages (values_of acc))
  unfolding reports_of
  reports_of-IsCoherent now combine_vantages [] h = tt
  reports_of-IsCoherent now combine_vantages ((k, a) ∷ acc) h = (
    build-IsCoherent a now combine_vantages h.0,
    reports_of-IsCoherent now combine_vantages acc h.1,
  )

  -- In every snapshot the template deliveries are at most the eligible endpoint samples, and in every report the deliveries
  -- are at most the checks, the arrivals at most the blocks, and the outcomes of each method add up to its attempts.
  pub compute_prepared-IsCoherent :
      (pools : List Pool) (os : List (Observation F)) (now : Time) (combine_vantages : Bool)
      → let snapshot = compute_prepared fl pools os now combine_vantages in
        (snapshot.template_deliveries ≤ snapshot.eligible_endpoint_samples)
        × All IsCoherent snapshot.reports
  unfolding compute_prepared totals_of
  compute_prepared-IsCoherent pools os now combine_vantages =
      let (sound, inside) =
        visit_all-IsConsistent fl (context_of pools os now) os 0 _
          (no_totals-IsConsistent fl pools) in
      (
        IsSubset-length _ _ inside,
        All-perm IsCoherent (sort_by-Permᴰ is_listed_before _)
            (reports_of-IsCoherent now combine_vantages _ sound),
      )
