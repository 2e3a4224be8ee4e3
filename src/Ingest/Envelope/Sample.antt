-- ===== src/Ingest/Envelope/Sample.antt =====
-- The loop of validateBlockEnvelope over the samples: no accepted sample is lost, and the time of the
-- block is that of its first arrival.
use stratum_stats.Base.{
  ℕ, ◌+◌, ◌≤◌, ◌<◌, ◌≡◌, refl, sym, ap, subst, ◌∙◌, true, false, ◌&&◌, ◌||◌, not, Bytes, List, [],
  ◌∷◌, Option, none, some, map, ltb, ◌==◌, if◌then◌else◌, find, insert, find-insert, Outcome, ok,
  err, >>=-eq-ok, Float, All, arith,
}
use stratum_stats.Model.{
  Time, second, EndpointIdentity, ForwardedEndpointSample, EndpointBlockSample, CoinbaseOutput,
  CoinbaseSource, CoinbaseEvidence,
}
use stratum_stats.Probe.Reader.{CoinbaseError}
use stratum_stats.Probe.Source.{analyze_coinbase_source}
use stratum_stats.Ingest.Target.{identity_eq, contains}
use stratum_stats.Ingest.Envelope.{
  Progress, keep_coinbase, arrive, check_sample, check_samples, identity, is_some, derive_samples,
  derive_sample, no_progress,
}

-- The endpoint that a sample of the observation names.
abbrev pub derived_identity : {F : Type 0} → EndpointBlockSample F → EndpointIdentity
derived_identity d = record { pool_id = d.pool_id; endpoint = d.endpoint; tls = d.tls }

module _ (fl : Float) (sha256 : Bytes → Bytes) (visit : List CoinbaseOutput → List CoinbaseOutput)
    (endpoints : List EndpointIdentity) (now : Time) where
  open fl use {F}

  -- What the loop has recorded of a sample: a setup, or a time of arrival.
  abbrev IsRecorded : Progress fl → ForwardedEndpointSample F → Type 0
  IsRecorded p s = (is_some s.setup || is_some (find (identity fl s) p.arrivals)) ≡ true

  abbrev pub next_first : Time → Time → Time
  next_first first at = if (first == 0) || ltb at first then at else first

  -- What an arrival that is accepted leaves behind.
  unfoldable pub HasArrived : EndpointIdentity → Time → Progress fl → Progress fl → Type 0
  HasArrived i at p q =
      (0 < at)
      × (at ≤ now + second)
      × (q.arrivals ≡ insert i at p.arrivals)
      × (q.first ≡ next_first p.first at)

  keep_coinbase-arrived :
      (i : EndpointIdentity) (o : Outcome CoinbaseError (ℕ × CoinbaseEvidence F)) (p : Progress fl)
      → ((keep_coinbase fl i o p).arrivals ≡ p.arrivals)
        × ((keep_coinbase fl i o p).first ≡ p.first)
        × ((keep_coinbase fl i o p).seen ≡ p.seen)
  unfolding keep_coinbase
  keep_coinbase-arrived i (ok a) p = (refl, refl, refl)
  keep_coinbase-arrived i (err e) p = (refl, refl, refl)

  arrive-HasArrived :
      (index : ℕ) (i : EndpointIdentity) (at : Time) (source : Option CoinbaseSource)
      (p q : Progress fl)
      → arrive fl sha256 visit endpoints now index i at source p ≡ ok q
      → HasArrived i at p q × (q.seen ≡ p.seen)
  unfolding arrive HasArrived
  arrive-HasArrived index i at none p q h = ground arith
  arrive-HasArrived index i at (some c) p q h =
      ground (arith, keep_coinbase-arrived i (analyze_coinbase_source fl sha256 visit c) p)

  Grows : Progress fl → Progress fl → Type 0
  Grows p q =
      (j : EndpointIdentity)
      → is_some (find j p.arrivals) ≡ true
      → is_some (find j q.arrivals) ≡ true

  HasArrived-Grows :
      (i : EndpointIdentity) (at : Time) (p q : Progress fl)
      → HasArrived i at p q
      → (is_some (find i q.arrivals) ≡ true) × Grows p q
  unfolding HasArrived Grows
  HasArrived-Grows i at p q (_, _, e, _) = (
    rw e (
        subst (λ o. is_some o ≡ true) (sym (find-insert ⦃e = identity_eq⦄ i i at p.arrivals))
          (ground (arith, identity_eq.same_iff i i))),
    λ j h. rw e (
        subst (λ o. is_some o ≡ true) (sym (find-insert ⦃e = identity_eq⦄ i j at p.arrivals))
          (ground (arith, h))),
  )

  unfoldable pub IsReceived :
      ForwardedEndpointSample F → Progress fl → Progress fl → Option Time → Type 0
  IsReceived s p q none = (is_some s.setup ≡ true) × (q.arrivals ≡ p.arrivals) × (q.first ≡ p.first)
  IsReceived s p q (some at) = HasArrived (identity fl s) at p q

  -- What a sample that passes the checks satisfies, and what the step changes.
  unfoldable pub IsChecked : ForwardedEndpointSample F → Progress fl → Progress fl → Type 0
  IsChecked s p q =
      (contains (identity fl s) endpoints ≡ true)
      × (contains (identity fl s) p.seen ≡ false)
      × (q.seen ≡ identity fl s ∷ p.seen)
      × IsReceived s p q s.received_at

  pub check_sample-IsChecked :
      (index : ℕ) (s : ForwardedEndpointSample F) (p q : Progress fl)
      → check_sample fl sha256 visit endpoints now index s p ≡ ok q
      → IsChecked s p q
  unfolding check_sample IsChecked IsReceived HasArrived
  check_sample-IsChecked index s p q h = ground (arith, arrive-HasArrived index (identity fl s))

  IsChecked-IsRecorded :
      (s : ForwardedEndpointSample F) (p q : Progress fl)
      → IsChecked s p q
      → IsRecorded q s × Grows p q
  unfolding IsChecked IsReceived Grows
  IsChecked-IsRecorded s p q (_, _, _, r) = go s.received_at r
    where
      go : (o : Option Time) → IsReceived s p q o → IsRecorded q s × Grows p q
      go none (setup, e, _) = (ground (arith), λ j h. rw e h)
      go (some at) r =
          let (found, grows) = HasArrived-Grows (identity fl s) at p q r in (ground (arith), grows)

  check_samples-IsRecorded :
      (index : ℕ) (ss : List (ForwardedEndpointSample F)) (p q : Progress fl)
      → check_samples fl sha256 visit endpoints now index ss p ≡ ok q
      → All (IsRecorded q) ss × Grows p q
  unfolding check_samples Grows
  check_samples-IsRecorded index [] p q h =
      let e : p ≡ q = cc in
      (tt, λ j found. subst (λ (r : Progress fl). is_some (find j r.arrivals) ≡ true) e found)
  check_samples-IsRecorded index (s ∷ ss) p q h =
      let (p', e, rest) =
        >>=-eq-ok (check_sample fl sha256 visit endpoints now index s p)
          (λ m. check_samples fl sha256 visit endpoints now (index + 1) ss m) h in
      let (recorded, grows) = IsChecked-IsRecorded s p p' (check_sample-IsChecked index s p p' e) in
      let (all, further) = check_samples-IsRecorded (index + 1) ss p' q rest in
      ((ground (arith, further (identity fl s)), all), λ j found. further j (grows j found))

  derive_sample-kept :
      (q : Progress fl) (s : ForwardedEndpointSample F)
      → IsRecorded q s
      → (not (is_some (derive_sample fl q s).offset_ms)
          && not (is_some (derive_sample fl q s).setup))
        ≡ false
  unfolding derive_sample
  derive_sample-kept q s h = ground arith

  derive_samples-identity :
      (q : Progress fl) (ss : List (ForwardedEndpointSample F))
      → All (IsRecorded q) ss
      → map derived_identity (derive_samples fl q ss) ≡ map (identity fl) ss
  unfolding derive_samples derive_sample
  derive_samples-identity q [] h = refl
  derive_samples-identity q (s ∷ ss) h =
      let kept = derive_sample-kept q s h.0 in
      let rest = derive_samples-identity q ss h.1 in
      ap (λ ds. map derived_identity ds) (step kept) ∙ ap (λ is. identity fl s ∷ is) rest
    where
      step :
          (not (is_some (derive_sample fl q s).offset_ms)
              && not (is_some (derive_sample fl q s).setup))
            ≡ false
          → derive_samples fl q (s ∷ ss) ≡ derive_sample fl q s ∷ derive_samples fl q ss
      step kept = rw kept refl

  -- Where the loop accepts a list of samples, the observation has one sample for each of them, in the same order and
  -- with the same pool, endpoint and TLS flag: none is dropped as empty.
  pub check_samples-derive_samples :
      (ss : List (ForwardedEndpointSample F)) (q : Progress fl)
      → check_samples fl sha256 visit endpoints now 0 ss (no_progress fl) ≡ ok q
      → map derived_identity (derive_samples fl q ss) ≡ map (identity fl) ss
  check_samples-derive_samples ss q h =
      derive_samples-identity q ss (check_samples-IsRecorded 0 ss (no_progress fl) q h).0
