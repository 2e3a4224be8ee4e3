-- ===== src/Report/Score/Measured.antt =====
-- When internal/report/score.go gives a report a score, and when it overrides it.
use stratum_stats.Base.{
  Bool-cases, inl, inr, ◌⊎◌, ℕ, ◌≡◌, refl, Bool, true, false, ◌&&◌, ◌||◌, not, ◌==◌, bytes,
  is_empty, [], Option, none, some, if◌then◌else◌, Float, arith,
}
use stratum_stats.Model.{Time}
use stratum_stats.Model.Reports.{PoolReport}
use stratum_stats.Ingest.Envelope.{is_some}
use stratum_stats.Report.Metrics.{estimated_mining_loss}
use stratum_stats.Report.Score.{
  is_overridden, loss_of, overall_score_of, measured_score, no_score, OverallScoreResult,
}

module _ (fl : Float) where
  open fl use {F}

  -- A report with the measurements that a score is made of.
  abbrev pub is_measured : PoolReport F → Bool
  is_measured r = is_some r.median_ms && (is_some r.p95_ms && not (r.blocks == 0))

  loss_cases :
      (loss median : Option F) (p : Bool) (availability : F) (blocks : ℕ)
      → (is_some median && (p && not (blocks == 0))) ≡ true
      → is_some (elim loss [
        | none ↦ estimated_mining_loss fl median availability blocks
        | some l ↦ some l
      ])
        ≡ true
  unfolding estimated_mining_loss
  loss_cases (some l) median p availability blocks h = refl
  loss_cases none none p availability blocks h = ground (arith, h)
  loss_cases none (some m) p availability blocks h = go p (blocks == 0) _ h
    where
      go : (p b : Bool) (x : F) → (p && not b) ≡ true → is_some (if b then none else some x) ≡ true
      go p false x h = refl
      go true true x h = ground (arith, h)
      go false true x h = ground (arith, h)

  -- a measured report has an estimated loss, so that the code's `*miningLoss` is not nil
  pub is_some-loss_of : (r : PoolReport F) → is_measured r ≡ true → is_some (loss_of fl r) ≡ true
  is_some-loss_of r h =
      loss_cases r.estimated_mining_loss_pct r.median_ms (is_some r.p95_ms) r.availability r.blocks
        h

  -- the branches of overallScore, at what a measured score has
  score_cases :
      (M : F → F → OverallScoreResult F)
      → ((p l : F) → is_some (M p l).score ≡ true)
      → ((p l : F) → (M p l).override_reason ≡ [])
      → (overridden : Bool) (median : Option F) (none_seen : Bool) (p95 loss : Option F)
      → ((is_some median && (is_some p95 && not none_seen)) ≡ true → is_some loss ≡ true)
      → let result : OverallScoreResult F =
          if overridden
          then record (no_score fl) {
            score = some (fl.of_ℕ 0);
            override_reason = bytes "worker_wallet_not_found";
          }
          else if not (is_some median) || none_seen
          then no_score fl
          else elim p95 [
            | none ↦ no_score fl
            | some p ↦ elim loss [ none ↦ no_score fl | some l ↦ M p l ]
          ] in
        (is_some result.score ≡ (overridden || (is_some median && (is_some p95 && not none_seen))))
        × (not (is_empty result.override_reason) ≡ overridden)
  score_cases M hs hr true median none_seen p95 loss h = (refl, refl)
  score_cases M hs hr false none none_seen p95 loss h = (refl, refl)
  score_cases M hs hr false (some m) true none loss h = (refl, refl)
  score_cases M hs hr false (some m) true (some p) loss h = (refl, refl)
  score_cases M hs hr false (some m) false none loss h = (refl, refl)
  score_cases M hs hr false (some m) false (some p) none h = (h refl, refl)
  score_cases M hs hr false (some m) false (some p) (some l) h = (hs p l, rw (hr p l) refl)

  -- A report has a score exactly if the score is overridden or the report is measured, and a reason exactly if the score is
  -- overridden; the score is then 0 and there is no penalty.
  pub overall_score_of-measured :
      (r : PoolReport F) (now : Time)
      → let result = overall_score_of fl r now in
        (is_some result.score ≡ (is_overridden r || is_measured r))
        × (not (is_empty result.override_reason) ≡ is_overridden r)
        × ((is_overridden r ≡ false)
            ⊎ (result ≡ record (no_score fl) {
              score = some (fl.of_ℕ 0);
              override_reason = bytes "worker_wallet_not_found";
            }))
  unfolding overall_score_of measured_score
  overall_score_of-measured r now =
      let (score, reason) =
        score_cases (measured_score fl r now) (λ p l. refl) (λ p l. refl) (is_overridden r)
          r.median_ms (r.blocks == 0) r.p95_ms (loss_of fl r) (is_some-loss_of r) in
      (
        score,
        reason,
        elim (Bool-cases (is_overridden r)) [
          | inl over ↦ inr (rw over refl)
          | inr regular ↦ inl regular
        ],
      )
