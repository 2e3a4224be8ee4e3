-- ===== src/Ingest/Envelope/Arrival.antt =====
-- The time of the block that validateBlockEnvelope derives: the earliest arrival of its samples.
use mathlib.Core.List.{Memᴰ}
use stratum_stats.Base.{
  ◌∙◌, ap, ◌||◌, ltb, Bool-cases, inl, inr, false, ℕ, ◌+◌, ◌≤◌, ◌<◌, ◌≡◌, refl, sym, subst, true,
  ◌&&◌, not, Bytes, List, [], ◌∷◌, Option, none, some, ◌==◌, ok, >>=-eq-ok, Float, All, Post,
  Post-bind, Post-guard, Post-ok, Post-self, leb, eqb, ◌++◌, eq_ℕ, arith, ◌⊎◌, length,
}
use stratum_stats.Model.{
  Time, second, EndpointIdentity, ForwardedEndpointSample, CoinbaseOutput, BlockSample, Observation,
}
use stratum_stats.Model.Region.{region_vantage}
use stratum_stats.Ingest.Target.{Configuration, allowed_block_targets}
use stratum_stats.Ingest.Envelope.{
  EnvelopeError, Envelope, Progress, check_sample, check_samples, no_progress, validate,
  validate_block_envelope, require, valid_id, valid_revision, valid_block_id,
  block_envelope_version, invalid_envelope_identity, missing_block_sample, invalid_region,
  invalid_configuration_revision, unknown_revision, invalid_block_sample, needs_arrival,
  unsupported_envelope_version, derive_observation,
}
use stratum_stats.Ingest.Envelope.Sample.{IsChecked, IsReceived, HasArrived, check_sample-IsChecked}

-- A sample's time of arrival, where it has one, lies between the block's and the clock's skew.
abbrev pub NotBefore : Time → Time → Option Time → Type 0
NotBefore now first none = Unit
NotBefore now first (some at) = (0 < first) × (first ≤ at) × (at ≤ now + second)

abbrev pub add_time : Option Time → List Time → List Time
add_time none times = times
add_time (some at) times = at ∷ times

-- The times of arrival of the samples that have one.
abbrev pub arrival_times : {F : Type 0} → List (ForwardedEndpointSample F) → List Time
arrival_times [] = []
arrival_times (s ∷ ss) = add_time s.received_at (arrival_times ss)

module _ (fl : Float) (sha256 : Bytes → Bytes) (visit : List CoinbaseOutput → List CoinbaseOutput)
    (endpoints : List EndpointIdentity) (now : Time) where
  open fl use {F}

  -- The block's time so far: none before the first arrival, and not behind the clock's skew.
  abbrev IsTimed : Progress fl → Type 0
  IsTimed p = (p.first ≤ now + second) × ((length p.arrivals ≡ 0) ⊎ (0 < p.first))

  IsChecked-IsTimed :
      (s : ForwardedEndpointSample F) (p q : Progress fl)
      → IsChecked fl sha256 visit endpoints now s p q
      → IsTimed p
      → IsTimed q
        × NotBefore now q.first s.received_at
        × (0 < p.first → (0 < q.first) × (q.first ≤ p.first))
  unfolding IsChecked IsReceived HasArrived
  IsChecked-IsTimed s p q c t = go s.received_at c.3
    where
      go :
          (o : Option Time)
          → IsReceived fl sha256 visit endpoints now s p q o
          → IsTimed q
            × NotBefore now q.first o
            × (0 < p.first → (0 < q.first) × (q.first ≤ p.first))
      go none r = ground arith
      go (some at) r = ground arith

  NotBefore-mono :
      (first later : Time) (o : Option Time)
      → NotBefore now first o
      → (0 < first → (0 < later) × (later ≤ first))
      → NotBefore now later o
  NotBefore-mono first later none h down = tt
  NotBefore-mono first later (some at) h down = ground (arith, down h.0)

  -- A sample that is checked leaves the block's time as it is, or sets it to its own.
  IsChecked-from :
      (s : ForwardedEndpointSample F) (p q : Progress fl)
      → IsChecked fl sha256 visit endpoints now s p q
      → (q.first ≡ p.first) ⊎ ((times : List Time) → Memᴰ q.first (add_time s.received_at times))
  unfolding IsChecked IsReceived HasArrived
  IsChecked-from s p q c = go s.received_at c.3
    where
      go :
          (o : Option Time)
          → IsReceived fl sha256 visit endpoints now s p q o
          → (q.first ≡ p.first) ⊎ ((times : List Time) → Memᴰ q.first (add_time o times))
      go none r = inl r.2
      go (some at) r = elim (Bool-cases ((p.first == 0) || ltb at p.first)) [
        | inl b ↦ inr (λ times. Memᴰ.head (ground (arith, b, r.3)))
        | inr b ↦ inl (ground (arith, b, r.3))
      ]

  Memᴰ-add_time :
      (t : Time) (o : Option Time) (times : List Time) → Memᴰ t times → Memᴰ t (add_time o times)
  Memᴰ-add_time t none times m = m
  Memᴰ-add_time t (some at) times m = Memᴰ.tail m

  -- The block's time is the one before the loop, or that of a sample.
  check_samples-from :
      (index : ℕ) (ss : List (ForwardedEndpointSample F)) (p q : Progress fl)
      → check_samples fl sha256 visit endpoints now index ss p ≡ ok q
      → (q.first ≡ p.first) ⊎ Memᴰ q.first (arrival_times ss)
  unfolding check_samples
  check_samples-from index [] p q h =
      let e : p ≡ q = cc in inl (ap (λ (r : Progress fl). r.first) (sym e))
  check_samples-from index (s ∷ ss) p q h =
      let (p', e, rest) =
        >>=-eq-ok (check_sample fl sha256 visit endpoints now index s p)
          (λ m. check_samples fl sha256 visit endpoints now (index + 1) ss m) h in
      let one =
        IsChecked-from s p p'
          (check_sample-IsChecked fl sha256 visit endpoints now index s p p' e) in
      elim (check_samples-from (index + 1) ss p' q rest) [
        | inr m ↦ inr (Memᴰ-add_time q.first s.received_at (arrival_times ss) m)
        | inl same ↦ elim one [
          | inl before ↦ inl (same ∙ before)
          | inr m ↦ inr (
              subst (λ t. Memᴰ t (add_time s.received_at (arrival_times ss))) (sym same)
                (m (arrival_times ss)))
        ]
      ]

  -- Every sample that has a time of arrival has it no earlier than the block's.
  check_samples-NotBefore :
      (index : ℕ) (ss : List (ForwardedEndpointSample F)) (p q : Progress fl)
      → check_samples fl sha256 visit endpoints now index ss p ≡ ok q
      → IsTimed p
      → IsTimed q
        × All (λ (s : ForwardedEndpointSample F). NotBefore now q.first s.received_at) ss
        × (0 < p.first → (0 < q.first) × (q.first ≤ p.first))
  unfolding check_samples
  check_samples-NotBefore index [] p q h t =
      let e : p ≡ q = cc in
      (
        subst IsTimed e t,
        tt,
        λ positive.
            subst (λ (r : Progress fl). (0 < r.first) × (r.first ≤ p.first)) e (ground arith),
      )
  check_samples-NotBefore index (s ∷ ss) p q h t =
      let (p', e, rest) =
        >>=-eq-ok (check_sample fl sha256 visit endpoints now index s p)
          (λ m. check_samples fl sha256 visit endpoints now (index + 1) ss m) h in
      let (t', before, down) =
        IsChecked-IsTimed s p p'
          (check_sample-IsChecked fl sha256 visit endpoints now index s p p' e) t in
      let (t'', all, further) = check_samples-NotBefore (index + 1) ss p' q rest t' in
      (
        t'',
        (NotBefore-mono p'.first q.first s.received_at before further, all),
        λ positive. ground (arith, down positive, further (down positive).0),
      )

-- What is said of the samples of the envelope, which has them.
abbrev pub OfSamples :
    {F : Type 0} → (ForwardedEndpointSample F → Type 0) → Option (BlockSample F) → Type 0
OfSamples P none = Unit
OfSamples P (some b) = All P b.endpoint_samples

-- One of the samples of the envelope arrived at a time.
abbrev pub IsArrival : {F : Type 0} → Time → Option (BlockSample F) → Type 0
IsArrival at none = true ≡ false
IsArrival at (some b) = Memᴰ at (arrival_times b.endpoint_samples)

module _ (fl : Float) (sha256 : Bytes → Bytes)
    (visit : List CoinbaseOutput → List CoinbaseOutput) where
  open fl use {F}

  module _ (c : Configuration) (envelope : Envelope F) (now : Time) where
    abbrev IsDated : Observation F → Type 0
    IsDated o =
        (0 < o.observed_at)
        × (o.observed_at ≤ now + second)
        × OfSamples (λ s. NotBefore now o.observed_at s.received_at) envelope.sample
        × IsArrival o.observed_at envelope.sample

    require-Post :
        {A : Type 0} (m : Option A) (e : EnvelopeError)
        → Post (λ a. m ≡ some a) (λ _. Unit) (require fl sha256 visit m e)
    require-Post none e = tt
    require-Post (some a) e = refl

    derive-IsDated :
        (vantage : Bytes) (forwarded : BlockSample F) (endpoints : List EndpointIdentity)
        (q : Progress fl)
        → envelope.sample ≡ some forwarded
        → check_samples fl sha256 visit endpoints now 0 forwarded.endpoint_samples (no_progress fl)
          ≡ ok q
        → not (length q.arrivals == 0) ≡ true
        → IsDated (derive_observation fl sha256 visit envelope vantage forwarded endpoints q)
    unfolding derive_observation
    derive-IsDated vantage forwarded endpoints q e h n =
        let (t, all, _) =
          check_samples-NotBefore fl sha256 visit endpoints now 0 forwarded.endpoint_samples
            (no_progress fl) q h (ground arith) in
        (
          ground (arith, t),
          t.0,
          subst (λ m. OfSamples (λ s. NotBefore now q.first s.received_at) m) (sym e) all,
          subst (IsArrival q.first) (sym e)
              (elim (check_samples-from fl sha256 visit endpoints now 0 forwarded.endpoint_samples
                (no_progress fl) q h) [ inr m ↦ m | inl unset ↦ ground (arith, t, unset) ]),
        )

    validate_block_envelope-Post :
        Post IsDated
          (λ (_ : EnvelopeError). Unit)
          (validate_block_envelope fl sha256 visit c envelope now)
    unfolding validate_block_envelope
    validate_block_envelope-Post =
        let Q : EnvelopeError → Type 0 = λ _. Unit in
        Post-guard IsDated Q (valid_id envelope.batch_id 128) invalid_envelope_identity _ tt λ _.
          Post-bind (λ b. envelope.sample ≡ some b) IsDated Q
            (require fl sha256 visit envelope.sample missing_block_sample) _
            (require-Post envelope.sample missing_block_sample)
            λ forwarded sample.
              Post-bind (λ v. region_vantage envelope.region ≡ some v) IsDated Q
                (require fl sha256 visit (region_vantage envelope.region) invalid_region) _
                (require-Post (region_vantage envelope.region) invalid_region)
                λ vantage _.
                  Post-guard IsDated Q (valid_revision envelope.config_revision)
                    invalid_configuration_revision _ tt
                    λ _.
                      let targets =
                        allowed_block_targets c envelope.config_revision vantage
                          envelope.filter_continents now in
                      Post-bind (λ es. targets ≡ some es) IsDated Q
                        (require fl sha256 visit targets unknown_revision) _
                        (require-Post targets unknown_revision)
                        λ endpoints _.
                          Post-guard IsDated Q
                            (valid_block_id forwarded.block_id
                              && (eqb envelope.batch_id
                                    (envelope.region ++ (b'-' ∷ forwarded.block_id))
                                  && (not (length forwarded.endpoint_samples == 0)
                                      && leb (length forwarded.endpoint_samples)
                                          (length endpoints))))
                            invalid_block_sample _ tt
                            λ _.
                              let loop =
                                check_samples fl sha256 visit endpoints now 0
                                  forwarded.endpoint_samples (no_progress fl) in
                              Post-bind (λ q. loop ≡ ok q) IsDated Q loop _ (Post-self loop)
                                λ q h.
                                  Post-guard IsDated Q (not (length q.arrivals == 0)) needs_arrival
                                    _ tt
                                    λ n. derive-IsDated vantage forwarded endpoints q sample h n

  -- The observation of an envelope that is accepted is dated by the first arrival: its time is that of one of the samples of
  -- the envelope, is set, and is at most a second after the receiver's clock, and no sample arrived before it or later than
  -- that second.
  pub validate-observed_at :
      (c : Configuration) (envelope : Envelope F) (now : Time) (o : Observation F)
      → validate fl sha256 visit c envelope now ≡ ok o
      → (0 < o.observed_at)
        × (o.observed_at ≤ now + second)
        × OfSamples (λ s. NotBefore now o.observed_at s.received_at) envelope.sample
        × IsArrival o.observed_at envelope.sample
  unfolding validate
  validate-observed_at c envelope now o h =
      Post-ok (IsDated c envelope now) (λ (_ : EnvelopeError). Unit)
        (validate fl sha256 visit c envelope now)
        (Post-guard (IsDated c envelope now) (λ (_ : EnvelopeError). Unit)
          (eq_ℕ envelope.schema_version block_envelope_version) unsupported_envelope_version _ tt
          λ _. validate_block_envelope-Post c envelope now)
        h
