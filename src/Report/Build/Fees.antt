-- ===== src/Report/Build/Fees.antt =====
-- The fee history of a report of internal/report/report.go.
use stratum_stats.Base.{
  ◌<◌, ◌⊎◌, ℕ, suc, ◌+◌, ◌-◌, ◌≤◌, ◌≡◌, refl, ap, subst, Bool, true, false, ◌==◌, List, [], ◌∷◌,
  Option, none, some, length, if◌then◌else◌, ltb, Float, arith, sort_by, not, sym,
}
use stratum_stats.Ingest.Envelope.{is_some}
use stratum_stats.Model.{Time}
use stratum_stats.Model.Reports.{PoolReport}
use stratum_stats.Report.Accumulator.{MetricSample, CoinbaseSample, Accumulator}
use stratum_stats.Report.Metrics.{round, is_older}
use stratum_stats.Report.Metrics.Percentiles.{length-recent_metric_history}
use stratum_stats.Report.Score.{apply_overall_score}
use stratum_stats.Report.Build.{
  first_of, second_of, with_latency, with_timings, with_fees, with_payouts, with_invalid_jobs,
  empty_report, build,
}
use stratum_stats.Report.Evidence.{
  FeeChanges, changed_from, fee_changes, fee_samples, fee_history_limit, values_of, latest_coinbase,
}

-- The last fee is known exactly if there is a sample, the fee before it exactly if the fee has changed; there are
-- fewer changes than samples, or no samples and no changes; and the history has at most twelve points.
abbrev pub HasFees : {F : Type 0} → PoolReport F → Type 0
HasFees r =
    (is_some r.latest_pool_fee_pct ≡ ltb 0 r.pool_fee_samples)
    × (is_some r.previous_pool_fee_pct ≡ ltb 0 r.pool_fee_changes)
    × (r.pool_fee_changed ≡ ltb 0 r.pool_fee_changes)
    × (((r.pool_fee_samples ≡ 0) × (r.pool_fee_changes ≡ 0))
        ⊎ (r.pool_fee_changes < r.pool_fee_samples))
    × (length r.pool_fee_history ≤ fee_history_limit)

module _ (fl : Float) where
  open fl use {F}

  -- one more distinct value than there are changes, and no more of them than samples
  abbrev Follows : FeeChanges F → ℕ → Type 0
  Follows c n =
      (c.changes ≡ length c.distinct - 1)
      × (length c.distinct ≤ n)
      × ((length c.distinct == 0) ≡ (n == 0))

  changed_from-Follows :
      (s : MetricSample F) (value : F) (c : FeeChanges F) (distinct : List F) (n : ℕ)
      → c.distinct ≡ distinct
      → Follows c n
      → Follows (changed_from fl s value c distinct) (suc n)
  changed_from-Follows s value c [] n same h = ground (arith, ap length same)
  changed_from-Follows s value c (last ∷ earlier) n same h = go (fl.eq last value)
    where
      go :
          (b : Bool)
          → Follows
              (if b then c else record {
                distinct = value ∷ last ∷ earlier;
                changes = c.changes + 1;
                last_changed_at = if s.at == 0 then c.last_changed_at else some s.at;
              })
              (suc n)
      go true = ground (arith, ap length same)
      go false = ground (arith, ap length same)

  fee_changes-Follows :
      (samples : List (MetricSample F)) (c : FeeChanges F) (n : ℕ)
      → Follows c n
      → Follows (fee_changes fl c samples) (length samples + n)
  unfolding fee_changes
  fee_changes-Follows [] c n h = subst (Follows c) (omega arith) h
  fee_changes-Follows (s ∷ samples) c n h =
      subst (Follows (fee_changes fl (changed_from fl s (round fl s.value 2) c c.distinct) samples))
        (omega arith)
        (fee_changes-Follows samples (changed_from fl s (round fl s.value 2) c c.distinct) (suc n)
          (changed_from-Follows s (round fl s.value 2) c c.distinct n refl h))

  with_payouts-HasFees :
      (s : Option (CoinbaseSample F)) (r : PoolReport F) → HasFees r → HasFees (with_payouts fl s r)
  unfolding with_payouts
  with_payouts-HasFees none r h = h
  with_payouts-HasFees (some s) r h = h

  is_some-first_of : (xs : List F) → is_some (first_of fl xs) ≡ not (length xs == 0)
  is_some-first_of [] = refl
  is_some-first_of (x ∷ xs) = ground arith

  is_some-second_of : (xs : List F) → is_some (second_of fl xs) ≡ ltb 0 (length xs - 1)
  is_some-second_of [] = refl
  is_some-second_of (x ∷ []) = refl
  is_some-second_of (x ∷ y ∷ xs) = ground arith

  few :
      (samples changes distinct : ℕ)
      → changes ≡ distinct - 1
      → distinct ≤ samples
      → ((samples ≡ 0) × (changes ≡ 0)) ⊎ (changes < samples)
  few samples changes distinct e le = ground (arith, e, le)

  with_fees-HasFees : (a : Accumulator F) (r : PoolReport F) → HasFees (with_fees fl a r)
  unfolding with_fees
  with_fees-HasFees a r =
      let fees = sort_by is_older (fee_samples fl a.pool (values_of a.coinbase)) in
      let none_yet : FeeChanges F = record { distinct = []; changes = 0; last_changed_at = none } in
      let c = fee_changes fl none_yet fees in
      let (changes, fewer, empty) =
        fee_changes-Follows fees none_yet 0 (refl, ground arith, refl) in
      (
        rw (is_some-first_of c.distinct) (ground (arith, empty)),
        rw (is_some-second_of c.distinct) (ap (ltb 0) (sym changes)),
        refl,
        few (length fees) c.changes (length c.distinct) changes (omega (arith, fewer)),
        ground (arith, length-recent_metric_history fl fees 2 fee_history_limit (ground arith)),
      )

  -- In every report the latest fee is known exactly if there is a fee sample, and the fee before it exactly if the fee has
  -- changed; there are fewer changes than samples, or neither a sample nor a change; and there are at most twelve points of history.
  pub build-HasFees :
      (a : Accumulator F) (now : Time) (combine_vantages : Bool)
      → HasFees (build fl a now combine_vantages)
  unfolding build apply_overall_score with_invalid_jobs
  build-HasFees a now combine_vantages =
      with_payouts-HasFees (latest_coinbase none (values_of a.coinbase)) _ (
        with_fees-HasFees a
          (with_timings fl a (with_latency fl a now combine_vantages (empty_report fl a))))
