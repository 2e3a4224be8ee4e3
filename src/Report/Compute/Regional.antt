-- ===== src/Report/Compute/Regional.antt =====
-- ComputeVantages of internal/report/report.go: what a regional view measures itself, and what it takes from the global
-- reports.
use mathlib.Core.List.{Memᴰ}
use stratum_stats.Base.{
  ◌⊎◌, All-weaken, ◌+◌, ℕ, ℤ, pos, ◌≡◌, refl, ap, Bool, true, false, ◌&&◌, not, Bytes, List, [],
  ◌∷◌, Option, none, some, map, length, if◌then◌else◌, ltb, find, bytes_eq, has, keep, All, Float,
  Bool-cases, inl, inr, arith,
}
use stratum_stats.Model.{Time, Observation}
use stratum_stats.Model.Reports.{PoolReport, Snapshot, PayoutDestination, MetricHistoryPoint}
use stratum_stats.Report.Keys.{observation_key_parts}
use stratum_stats.Report.Score.{apply_overall_score}
use stratum_stats.Report.Compute.{
  PreparedReports, compute_prepared, compute_vantages, report_key, select_vantages,
  restored_cohorts, with_evidence, no_evidence, regional_report,
}

-- The evidence on fees and payouts that a report shows.
pub record Evidence (F : Type 0) : Type 0 where
  pub samples : ℕ
  pub observed_pct : Option F
  pub status : Bytes
  pub latest_fee : Option F
  pub previous_fee : Option F
  pub fee_changed : Bool
  pub fee_changes : ℕ
  pub fee_samples : ℕ
  pub fee_changed_at : Option Time
  pub coinbase_at : Option Time
  pub total_sats : ℕ
  pub output_count : ℤ
  pub destinations : List (PayoutDestination F)
  pub truncated : Bool
  pub omitted_sats : ℕ
  pub fee_history : List (MetricHistoryPoint F)

module _ {F : Type 0} where
  -- An observation of a selected vantage, of a block that has not failed in several.
  abbrev pub IsSelected : List Bytes → List Bytes → Observation F → Type 0
  IsSelected vantages failed o = (has o.vantage vantages ≡ true) × (has o.block_id failed ≡ false)

  abbrev pub IsLeftOut : List Bytes → List Bytes → Observation F → Type 0
  IsLeftOut vantages failed o = (has o.vantage vantages ≡ false) ⊎ (has o.block_id failed ≡ true)

  abbrev pub shown_evidence : PoolReport F → Evidence F
  shown_evidence r = record {
    samples = r.coinbase_samples;
    observed_pct = r.worker_address_observed_pct;
    status = r.worker_address_status;
    latest_fee = r.latest_pool_fee_pct;
    previous_fee = r.previous_pool_fee_pct;
    fee_changed = r.pool_fee_changed;
    fee_changes = r.pool_fee_changes;
    fee_samples = r.pool_fee_samples;
    fee_changed_at = r.pool_fee_last_changed_at;
    coinbase_at = r.latest_coinbase_observed_at;
    total_sats = r.latest_coinbase_total_sats;
    output_count = r.latest_coinbase_output_count;
    destinations = r.latest_payout_destinations;
    truncated = r.latest_payout_destinations_truncated;
    omitted_sats = r.latest_payout_omitted_sats;
    fee_history = r.pool_fee_history;
  }

  abbrev pub nothing_known : Evidence F
  nothing_known = record {
    samples = 0;
    observed_pct = none;
    status = [];
    latest_fee = none;
    previous_fee = none;
    fee_changed = false;
    fee_changes = 0;
    fee_samples = 0;
    fee_changed_at = none;
    coinbase_at = none;
    total_sats = 0;
    output_count = pos 0;
    destinations = [];
    truncated = false;
    omitted_sats = 0;
    fee_history = [];
  }

  abbrev pub evidence_in : Option (PoolReport F) → Evidence F
  evidence_in none = nothing_known
  evidence_in (some global) = shown_evidence global

module _ (fl : Float) where
  open fl use {F}

  -- A report of the view has the measurements of `own`, and the evidence of the global report with its key.
  abbrev pub IsMerged : PreparedReports fl → PoolReport F → PoolReport F → Type 0
  IsMerged p own r =
      (report_key r ≡ report_key own)
      × (r.median_ms ≡ own.median_ms)
      × (r.eligible_checks ≡ own.eligible_checks)
      × (r.delivery_checks ≡ own.delivery_checks)
      × (shown_evidence r ≡ evidence_in (find (report_key r) p.global_reports))

  abbrev pub AreMerged : PreparedReports fl → List (PoolReport F) → List (PoolReport F) → Type 0
  AreMerged p [] [] = true ≡ true
  AreMerged p (own ∷ owns) (r ∷ rs) = IsMerged p own r × AreMerged p owns rs
  AreMerged p _ _ = true ≡ false

  -- whether a cohort is one of a selected vantage, of a block that failed in several
  abbrev pub is_failed_cohort : List Bytes → List Bytes → Bytes → Bool
  is_failed_cohort vantages failed key =
      has (observation_key_parts key).0 vantages && has (observation_key_parts key).1 failed

  -- What a snapshot of the selected vantages shows.
  abbrev pub IsRegional : PreparedReports fl → List Bytes → Snapshot F → Type 0
  IsRegional p vantages view =
      (selected : List (Observation F)) × All (IsSelected vantages p.failed_blocks) selected
      × All (λ o. Memᴰ o selected ⊎ IsLeftOut vantages p.failed_blocks o) p.observations
      × All (λ o. Memᴰ o p.observations) selected
      × (let own = compute_prepared fl p.pools selected p.now (ltb 1 (length vantages)) in
          (view.template_deliveries ≡ own.template_deliveries)
          × (view.excluded_regional_cohorts
              ≡ own.excluded_regional_cohorts
                + length (
                    keep (is_failed_cohort vantages p.failed_blocks)
                      p.multi_region_excluded_cohorts))
          × AreMerged p own.reports view.reports)

  select_vantages-IsSelected :
      (vantages failed : List Bytes) (os : List (Observation F))
      → All (IsSelected vantages failed) (select_vantages fl vantages failed os)
  unfolding select_vantages
  select_vantages-IsSelected vantages failed [] = tt
  select_vantages-IsSelected vantages failed (o ∷ os) =
      let rest = select_vantages-IsSelected vantages failed os in
      elim (Bool-cases (has o.vantage vantages && not (has o.block_id failed))) [
        | inl b ↦ rw b ((ground (arith, b), ground (arith, b)), rest)
        | inr b ↦ rw b rest
      ]

  IsKept-weaken :
      (vantages failed : List Bytes) (x : Observation F) (selected os : List (Observation F))
      → All (λ o. Memᴰ o selected ⊎ IsLeftOut vantages failed o) os
      → All (λ o. Memᴰ o (x ∷ selected) ⊎ IsLeftOut vantages failed o) os
  IsKept-weaken vantages failed x selected [] h = tt
  IsKept-weaken vantages failed x selected (o ∷ os) h = (
    elim h.0 [ inl m ↦ inl (Memᴰ.tail m) | inr out ↦ inr out ],
    IsKept-weaken vantages failed x selected os h.1,
  )

  select_vantages-keeps :
      (vantages failed : List Bytes) (os : List (Observation F))
      → All (λ o. Memᴰ o (select_vantages fl vantages failed os) ⊎ IsLeftOut vantages failed o) os
  unfolding select_vantages
  select_vantages-keeps vantages failed [] = tt
  select_vantages-keeps vantages failed (o ∷ os) =
      go (has o.vantage vantages && not (has o.block_id failed)) refl
        (select_vantages-keeps vantages failed os)
    where
      go :
          (b : Bool)
          → b ≡ (has o.vantage vantages && not (has o.block_id failed))
          → All
              (λ x. Memᴰ x (select_vantages fl vantages failed os) ⊎ IsLeftOut vantages failed x)
              os
          → let selected =
              if b
              then o ∷ select_vantages fl vantages failed os
              else select_vantages fl vantages failed os in
            All (λ x. Memᴰ x selected ⊎ IsLeftOut vantages failed x) (o ∷ os)
      go true e rest = (
        inl (Memᴰ.head refl),
        IsKept-weaken vantages failed o (select_vantages fl vantages failed os) os rest,
      )
      go false e rest = (inr (ground (arith, e)), rest)

  select_vantages-from :
      (vantages failed : List Bytes) (os : List (Observation F))
      → All (λ o. Memᴰ o os) (select_vantages fl vantages failed os)
  unfolding select_vantages
  select_vantages-from vantages failed [] = tt
  select_vantages-from vantages failed (o ∷ os) =
      let rest =
        All-weaken o (select_vantages fl vantages failed os) os
          (select_vantages-from vantages failed os) in
      elim (Bool-cases (has o.vantage vantages && not (has o.block_id failed))) [
        | inl b ↦ rw b (Memᴰ.head refl, rest)
        | inr b ↦ rw b rest
      ]

  restored_cohorts-keep :
      (vantages failed keys : List Bytes)
      → restored_cohorts fl vantages failed keys
        ≡ length (keep (is_failed_cohort vantages failed) keys)
  unfolding restored_cohorts
  restored_cohorts-keep vantages failed [] = refl
  restored_cohorts-keep vantages failed (key ∷ keys) =
      let rest = restored_cohorts-keep vantages failed keys in
      elim (Bool-cases (is_failed_cohort vantages failed key)) [
        | inl b ↦ rw b (ground (arith, rest))
        | inr b ↦ rw b rest
      ]

  regional_report-IsMerged :
      (p : PreparedReports fl) (own : PoolReport F)
      → IsMerged p own (regional_report fl p.global_reports p.now own)
  unfolding regional_report apply_overall_score with_evidence no_evidence report_key
  regional_report-IsMerged p own = go (find (report_key own) p.global_reports) refl
    where
      go :
          (o : Option (PoolReport F))
          → o ≡ find (report_key own) p.global_reports
          → IsMerged p own (
              apply_overall_score fl
                (elim o [
                  | none ↦ no_evidence fl own
                  | some evidence ↦ with_evidence fl evidence own
                ])
                p.now)
      go none e = (refl, refl, refl, refl, ap evidence_in e)
      go (some global) e = (refl, refl, refl, refl, ap evidence_in e)

  map-AreMerged :
      (p : PreparedReports fl) (owns : List (PoolReport F))
      → AreMerged p owns (map (regional_report fl p.global_reports p.now) owns)
  map-AreMerged p [] = refl
  map-AreMerged p (own ∷ owns) = (regional_report-IsMerged p own, map-AreMerged p owns)

  -- A regional view, of whatever prepared reports, is computed from exactly the observations of the selected vantages whose
  -- blocks did not fail in several regions: its deliveries are theirs, its reports are theirs one for one with their median,
  -- checks and deliveries; each report shows the evidence on fees and payouts of the global report with the same key, or none
  -- where there is no such report; and it counts as excluded its own cohorts and the cohorts of the selected vantages of
  -- blocks that failed in several regions.
  pub compute_vantages-IsRegional :
      (p : PreparedReports fl) (vantages : List Bytes)
      → IsRegional p vantages (compute_vantages fl p vantages)
  unfolding compute_vantages
  compute_vantages-IsRegional p vantages =
      let selected = select_vantages fl vantages p.failed_blocks p.observations in
      let own = compute_prepared fl p.pools selected p.now (ltb 1 (length vantages)) in
      (
        selected,
        select_vantages-IsSelected vantages p.failed_blocks p.observations,
        select_vantages-keeps vantages p.failed_blocks p.observations,
        select_vantages-from vantages p.failed_blocks p.observations,
        (
          refl,
          ap (λ n. own.excluded_regional_cohorts + n)
              (restored_cohorts-keep vantages p.failed_blocks p.multi_region_excluded_cohorts),
          map-AreMerged p own.reports,
        ),
      )
