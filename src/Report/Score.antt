-- ===== src/Report/Score.antt =====
-- internal/report/score.go: the overall score of a report, from its measurements alone.
pub mod Measured
use stratum_stats.Base.{
  ℕ, ◌+◌, ◌-◌, ◌*◌, Bool, true, false, ◌&&◌, ◌||◌, not, ◌==◌, Bytes, bytes, eqb, List, [], ◌∷◌,
  Option, none, some, if◌then◌else◌, ltb, leb, Float,
}
use stratum_stats.Model.{Time, second}
use stratum_stats.Model.Reports.{PoolReport, TimingStats}
use stratum_stats.Report.Metrics.{clamp, round, estimated_mining_loss}
use stratum_stats.Ingest.Envelope.{is_some}

abbrev pub score_mining_loss_weight : ℕ
score_mining_loss_weight = 25

abbrev pub score_p95_weight : ℕ
score_p95_weight = 20

abbrev pub score_availability_weight : ℕ
score_availability_weight = 40

abbrev pub score_responsiveness_weight : ℕ
score_responsiveness_weight = 10

abbrev pub score_fee_stability_weight : ℕ
score_fee_stability_weight = 5

abbrev pub score_fee_increase_max_penalty : ℕ
score_fee_increase_max_penalty = 15

-- 30 * 24 * time.Hour
abbrev pub score_fee_increase_window : ℕ
score_fee_increase_window = 30 * 24 * 3600 * second

abbrev pub score_high_fee_max_penalty : ℕ
score_high_fee_max_penalty = 10

abbrev pub score_tls_certificate_penalty : ℕ
score_tls_certificate_penalty = 10

pub record OverallScoreResult (F : Type 0) : Type 0 where
  pub score : Option F
  pub recent_fee_increase_penalty : F
  pub high_fee_penalty : F
  pub tls_certificate_penalty : F
  pub override_reason : Bytes

pub record ScoreAnchor (F : Type 0) : Type 0 where
  pub value : F
  pub score : F

-- `status` is one that shows that the worker's wallet is not always paid
abbrev pub is_unpaid : Bytes → Bool
is_unpaid status = eqb status (bytes "not_observed") || eqb status (bytes "varied")

abbrev pub is_solo : {F : Type 0} → PoolReport F → Bool
is_solo r = eqb r.category (bytes "solo")

-- the solo pool whose score is overridden
abbrev pub is_overridden : {F : Type 0} → PoolReport F → Bool
is_overridden r = is_solo r && is_unpaid r.worker_address_status

module _ (fl : Float) where
  open fl use {F, of_ℕ, add, sub, mul, div}

  abbrev anchor : F → ℕ → ScoreAnchor F
  anchor value score = record { value = value; score = of_ℕ score }

  -- the anchors but the first, of which each table has one more
  abbrev pub mining_loss_score_anchors : List (ScoreAnchor F)
  mining_loss_score_anchors =
      anchor (div (of_ℕ 1) (of_ℕ 10)) 100
      ∷ anchor (div (of_ℕ 25) (of_ℕ 100)) 90
      ∷ anchor (div (of_ℕ 5) (of_ℕ 10)) 75
      ∷ anchor (of_ℕ 1) 50
      ∷ anchor (div (of_ℕ 25) (of_ℕ 10)) 10
      ∷ anchor (of_ℕ 5) 0
      ∷ []

  abbrev pub p95_score_anchors : List (ScoreAnchor F)
  p95_score_anchors =
      anchor (of_ℕ 250) 100
      ∷ anchor (of_ℕ 500) 90
      ∷ anchor (of_ℕ 1000) 75
      ∷ anchor (of_ℕ 2000) 50
      ∷ anchor (of_ℕ 5000) 10
      ∷ anchor (of_ℕ 10000) 0
      ∷ []

  abbrev pub availability_score_anchors : List (ScoreAnchor F)
  availability_score_anchors =
      anchor (of_ℕ 90) 0
      ∷ anchor (of_ℕ 95) 20
      ∷ anchor (of_ℕ 98) 60
      ∷ anchor (of_ℕ 99) 80
      ∷ anchor (div (of_ℕ 995) (of_ℕ 10)) 90
      ∷ anchor (of_ℕ 100) 100
      ∷ []

  abbrev pub responsiveness_score_anchors : List (ScoreAnchor F)
  responsiveness_score_anchors =
      anchor (of_ℕ 100) 95
      ∷ anchor (of_ℕ 250) 80
      ∷ anchor (of_ℕ 500) 60
      ∷ anchor (of_ℕ 1000) 30
      ∷ anchor (of_ℕ 2500) 0
      ∷ []

  -- between two anchors
  abbrev pub interpolate : F → ScoreAnchor F → ScoreAnchor F → F
  interpolate value lower upper =
      let position = div (sub value lower.value) (sub upper.value lower.value) in
      add lower.score (mul position (sub upper.score lower.score))

  unfoldable pub score_between : F → ScoreAnchor F → List (ScoreAnchor F) → F
  score_between value lower [] = lower.score
  score_between value lower (upper ∷ anchors) =
      let rest = score_between value upper anchors in
      if fl.ltb upper.value value then rest else interpolate value lower upper

  -- scoreFromAnchors, at the first anchor and the others
  unfoldable pub score_from_anchors : F → ScoreAnchor F → List (ScoreAnchor F) → F
  unfolding score_between
  score_from_anchors value first anchors =
      if fl.leb value first.value then first.score else score_between value first anchors

  -- highPoolFeePenalty
  unfoldable pub high_pool_fee_penalty : PoolReport F → F
  unfolding clamp round
  high_pool_fee_penalty r = elim r.latest_pool_fee_pct [
    | none ↦ of_ℕ 0
    | some fee ↦
        let threshold = div (of_ℕ 25) (of_ℕ 10) in
        if not (is_solo r) || fl.leb fee threshold
        then of_ℕ 0
        else round fl
            (clamp fl (mul (sub fee threshold) (div (of_ℕ 25) (of_ℕ 10))) (of_ℕ 0)
              (of_ℕ score_high_fee_max_penalty))
            1
  ]

  -- the penalty of a fee increase of the given age
  abbrev pub aged_penalty : ℕ → F
  aged_penalty age =
      if leb score_fee_increase_window age
      then of_ℕ 0
      else let remaining = sub (of_ℕ 1) (div (of_ℕ age) (of_ℕ score_fee_increase_window)) in
        round fl (mul (of_ℕ score_fee_increase_max_penalty) remaining) 1

  -- recentFeeIncreasePenalty; an age below zero counts as zero
  unfoldable pub recent_fee_increase_penalty_at : PoolReport F → Time → F
  recent_fee_increase_penalty_at r now = elim r.latest_pool_fee_pct [
    | none ↦ of_ℕ 0
    | some latest ↦ elim r.previous_pool_fee_pct [
      | none ↦ of_ℕ 0
      | some previous ↦ elim r.pool_fee_last_changed_at [
        | none ↦ of_ℕ 0
        | some changed ↦
            if not (is_solo r) || fl.leb latest previous
            then of_ℕ 0
            else aged_penalty (now - changed)
      ]
    ]
  ]

  -- the loop of responsivenessScore
  unfoldable pub responsiveness_from : F → ℕ → List (TimingStats F) → F × ℕ
  unfolding score_from_anchors
  responsiveness_from total count [] = (total, count)
  responsiveness_from total count (t ∷ timings) =
      let after : F × ℕ = elim t.median_ms [
        | none ↦ (total, count)
        | some median ↦ (
          add total (score_from_anchors median (anchor (of_ℕ 0) 100) responsiveness_score_anchors),
          count + 1,
        )
      ] in
      responsiveness_from after.0 after.1 timings

  -- responsivenessScore
  unfoldable pub responsiveness_score : PoolReport F → Option F
  unfolding responsiveness_from
  responsiveness_score r =
      let (total, count) =
        responsiveness_from (of_ℕ 0) 0
          (r.connect_timing ∷ r.tls_timing ∷ r.subscribe_timing ∷ r.authorize_timing ∷ []) in
      if count == 0 then none else some (div total (of_ℕ count))

  abbrev pub no_score : OverallScoreResult F
  no_score = record {
    score = none;
    recent_fee_increase_penalty = of_ℕ 0;
    high_fee_penalty = of_ℕ 0;
    tls_certificate_penalty = of_ℕ 0;
    override_reason = [];
  }

  -- `weightedScore` and `weight`, first of the three core components, then with the optional ones
  abbrev pub core_score : PoolReport F → F → F → F × F
  core_score r p95 loss = (
    add
        (add
          (mul (of_ℕ score_mining_loss_weight)
            (score_from_anchors loss (anchor (of_ℕ 0) 100) mining_loss_score_anchors))
          (mul (of_ℕ score_p95_weight)
            (score_from_anchors p95 (anchor (of_ℕ 0) 100) p95_score_anchors)))
        (mul (of_ℕ score_availability_weight)
          (score_from_anchors r.availability (anchor (of_ℕ 0) 0) availability_score_anchors)),
    of_ℕ (score_mining_loss_weight + score_p95_weight + score_availability_weight),
  )

  abbrev pub with_responsiveness : PoolReport F → F × F → F × F
  with_responsiveness r w = elim (responsiveness_score r) [
    | none ↦ w
    | some s ↦ (
      add w.0 (mul (of_ℕ score_responsiveness_weight) s),
      add w.1 (of_ℕ score_responsiveness_weight),
    )
  ]

  abbrev pub with_fee_stability : PoolReport F → F × F → F × F
  with_fee_stability r w =
      let transitions = r.pool_fee_samples - 1 in
      let stability =
        mul (of_ℕ 100) (sub (of_ℕ 1) (div (of_ℕ r.pool_fee_changes) (of_ℕ transitions))) in
      if is_solo r && leb 2 r.pool_fee_samples
      then (
        add w.0 (mul (of_ℕ score_fee_stability_weight) (clamp fl stability (of_ℕ 0) (of_ℕ 100))),
        add w.1 (of_ℕ score_fee_stability_weight),
      )
      else w

  -- a score from the components, less the penalties
  unfoldable pub measured_score : PoolReport F → Time → F → F → OverallScoreResult F
  unfolding clamp round high_pool_fee_penalty recent_fee_increase_penalty_at
  measured_score r now p95 loss =
      let w = with_fee_stability r (with_responsiveness r (core_score r p95 loss)) in
      let fee_increase = recent_fee_increase_penalty_at r now in
      let high_fee = high_pool_fee_penalty r in
      let certificate =
        if ltb 0 r.tls_timing.certificate_errors
        then of_ℕ score_tls_certificate_penalty
        else of_ℕ 0 in
      record {
        score = some (
            round fl
              (clamp fl (sub (sub (sub (div w.0 w.1) fee_increase) high_fee) certificate) (of_ℕ 0)
                (of_ℕ 100))
              4);
        recent_fee_increase_penalty = fee_increase;
        high_fee_penalty = high_fee;
        tls_certificate_penalty = certificate;
        override_reason = [];
      }

  abbrev pub loss_of : PoolReport F → Option F
  loss_of r = elim r.estimated_mining_loss_pct [
    | none ↦ estimated_mining_loss fl r.median_ms r.availability r.blocks
    | some loss ↦ some loss
  ]

  -- overallScore; where the loss is dereferenced it is there, as the median and the blocks are
  unfoldable pub overall_score_of : PoolReport F → Time → OverallScoreResult F
  unfolding measured_score estimated_mining_loss
  overall_score_of r now =
      if is_overridden r
      then record no_score {
        score = some (of_ℕ 0);
        override_reason = bytes "worker_wallet_not_found";
      }
      else if not (is_some r.median_ms) || r.blocks == 0
      then no_score
      else elim r.p95_ms [
        | none ↦ no_score
        | some p95 ↦ elim (loss_of r) [
          | none ↦ no_score
          | some loss ↦ measured_score r now p95 loss
        ]
      ]

  -- applyOverallScore
  unfoldable pub apply_overall_score : PoolReport F → Time → PoolReport F
  unfolding overall_score_of
  apply_overall_score r now =
      let result = overall_score_of r now in
      record r {
        overall_score = result.score;
        recent_fee_increase_penalty = result.recent_fee_increase_penalty;
        high_fee_penalty = result.high_fee_penalty;
        tls_certificate_penalty = result.tls_certificate_penalty;
        score_override_reason = result.override_reason;
      }
