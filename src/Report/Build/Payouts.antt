-- ===== src/Report/Build/Payouts.antt =====
-- What a report of internal/report/report.go shows of the newest coinbase, and what it keeps private.
use stratum_stats.Base.{
  ◌<◌, sym, ◌⊎◌, ℕ, ◌≡◌, refl, ap, Bool, true, false, not, Bytes, bytes, eqb, is_empty, List, [],
  ◌∷◌, Option, none, some, length, if◌then◌else◌, Float, ◌&&◌, ◌||◌, ◌==◌, ◌≤◌, arith, inl, inr,
  ◌∙◌,
}
use stratum_stats.Model.{Time, CoinbaseOutput}
use stratum_stats.Model.Reports.{PayoutDestination, PoolReport}
use stratum_stats.Report.Accumulator.{Accumulator, CoinbaseSample}
use stratum_stats.Report.Score.{apply_overall_score, is_overridden, is_unpaid}
use stratum_stats.Report.Score.Measured.{overall_score_of-measured}
use stratum_stats.Report.Build.{
  with_latency, with_timings, with_fees, with_payouts, with_invalid_jobs, empty_report, build,
}
use stratum_stats.Report.Evidence.{
  values_of, latest_coinbase, worker_address_matches, worker_address_status_of,
}

module _ (fl : Float) where
  open fl use {F}

  -- What is public of an output: all but the share and the mark of the worker.
  abbrev pub PublicOutput : Type 0
  PublicOutput = ℕ × Bytes × Bool × Bytes × Bytes

  abbrev pub public_output : CoinbaseOutput → PublicOutput
  public_output o =
      (o.value_sats, o.script_pub_key, o.script_pub_key_truncated, o.address, o.script_type)

  abbrev pub shown_output : PayoutDestination F → PublicOutput
  shown_output d =
      (d.value_sats, d.script_pub_key, d.script_pub_key_truncated, d.address, d.script_type)

  abbrev pub is_other : CoinbaseOutput → Bool
  is_other o = not o.worker

  -- the outputs of the coinbase that a report shows
  abbrev outputs_of : Option (CoinbaseSample F) → List CoinbaseOutput
  outputs_of none = []
  outputs_of (some s) = s.observation.coinbase_outputs

  -- One sample is not after another, by its time and then by its order.
  abbrev pub IsNotAfter : CoinbaseSample F → CoinbaseSample F → Type 0
  IsNotAfter old s =
      (old.observation.observed_at < s.observation.observed_at)
      ⊎ ((old.observation.observed_at ≡ s.observation.observed_at) × (old.order ≤ s.order))

  -- whether a coinbase was analyzed that does not pay the worker
  abbrev pub is_any_unpaid : List (CoinbaseSample F) → Bool
  is_any_unpaid [] = false
  is_any_unpaid (s ∷ samples) = not s.observation.worker_wallet_in_coinbase || is_any_unpaid samples

  worker_address_matches_le :
      (samples : List (CoinbaseSample F)) → worker_address_matches samples ≤ length samples
  unfolding worker_address_matches
  worker_address_matches_le [] = ground arith
  worker_address_matches_le (s ∷ samples) = ground (arith, worker_address_matches_le samples)

  worker_address_matches-unpaid :
      (samples : List (CoinbaseSample F))
      → (worker_address_matches samples == length samples) ≡ not (is_any_unpaid samples)
  unfolding worker_address_matches
  worker_address_matches-unpaid [] = refl
  worker_address_matches-unpaid (s ∷ samples) =
      ground (arith, worker_address_matches_le samples, worker_address_matches-unpaid samples)

  status-unpaid :
      (n m : ℕ) → is_unpaid (worker_address_status_of n m) ≡ (not (n == 0) && not (m == n))
  unfolding worker_address_status_of
  status-unpaid n m = go (n == 0) (m == n) (m == 0)
    where
      go :
          (zero all unseen : Bool)
          → is_unpaid (
              if zero
              then bytes "unknown"
              else if all
              then bytes "always_observed"
              else if unseen
              then bytes "not_observed"
              else bytes "varied")
            ≡ (not zero && not all)
      go true all unseen = refl
      go false true unseen = refl
      go false false true = refl
      go false false false = refl

  samples-unpaid :
      (samples : List (CoinbaseSample F))
      → is_unpaid (worker_address_status_of (length samples) (worker_address_matches samples))
        ≡ is_any_unpaid samples
  samples-unpaid samples =
      rw
        (
          status-unpaid (length samples) (worker_address_matches samples),
          worker_address_matches-unpaid samples,
        )
        (nonempty samples)
    where
      nonempty :
          (samples : List (CoinbaseSample F))
          → (not (length samples == 0) && not (not (is_any_unpaid samples))) ≡ is_any_unpaid samples
      nonempty [] = refl
      nonempty (s ∷ samples) = ground arith

  with_payouts-is_overridden :
      (s : Option (CoinbaseSample F)) (r : PoolReport F)
      → is_overridden (with_payouts fl s r) ≡ is_overridden r
  unfolding with_payouts
  with_payouts-is_overridden none r = refl
  with_payouts-is_overridden (some s) r = refl

  -- The score of a report is overridden exactly if the pool is a solo pool and a coinbase was analyzed that does not pay the
  -- worker; the score is then 0.
  pub build-unpaid :
      (a : Accumulator F) (now : Time) (combine_vantages : Bool)
      → let report = build fl a now combine_vantages in
        let unpaid = eqb a.pool.category (bytes "solo") && is_any_unpaid (values_of a.coinbase) in
        (not (is_empty report.score_override_reason) ≡ unpaid)
        × ((unpaid ≡ false) ⊎ (report.overall_score ≡ some (fl.of_ℕ 0)))
  unfolding build apply_overall_score with_invalid_jobs with_fees with_timings with_latency
      empty_report
  build-unpaid a now combine_vantages =
      let before =
        with_fees fl a
          (with_timings fl a (with_latency fl a now combine_vantages (empty_report fl a))) in
      let paid = with_payouts fl (latest_coinbase none (values_of a.coinbase)) before in
      let report = with_invalid_jobs fl (values_of a.invalid_jobs) paid in
      let (score, reason, override) = overall_score_of-measured fl report now in
      let same : is_overridden report
          ≡ (eqb a.pool.category (bytes "solo") && is_any_unpaid (values_of a.coinbase)) =
        with_payouts-is_overridden (latest_coinbase none (values_of a.coinbase)) before
        ∙ ap (λ b. eqb a.pool.category (bytes "solo") && b)
            (samples-unpaid (values_of a.coinbase)) in
      (
        reason ∙ same,
        elim override [
          | inl regular ↦ inl (sym same ∙ regular)
          | inr overridden ↦ inr (ap (λ r. r.score) overridden)
        ],
      )
