-- ===== src/Report/Prepare/Expand.antt =====
-- What expandBlockSamples makes of one atomic block sample.
use stratum_stats.Base.{
  ◌∙◌, ap, insert, find-insert, if◌then◌else◌, ℕ, ◌+◌, ◌≡◌, refl, Bool, true, false, Bytes, eqb,
  is_empty, List, [], ◌∷◌, Option, none, some, map, length, find, bytes_eq, keep, keep-append,
  Float,
}
use mathlib.Core.List.{append-nil}
use mathlib.Core.Path.{ap₂}
use stratum_stats.Model.{
  CoinbaseEvidence, EndpointIdentity, EndpointSetup, ProtocolSample, EndpointBlockSample,
  Observation, record_type_block_sample,
}
use stratum_stats.Model.Redact.{or_else}
use stratum_stats.Ingest.Envelope.{is_some}
use stratum_stats.Report.Prepare.{
  with_coinbase, with_offset, block_observation, setup_observation, setup_observations, setup_of,
  if_setup, expand_endpoints, completion, expand_sample, eligible_of, run_id_of, provided_from,
  identity_key, endpoint_report_key,
}

module _ (fl : Float) where
  open fl use {F}

  -- A block observation, as against a protocol observation or the record of a run.
  abbrev pub is_block : Observation F → Bool
  is_block o = is_empty o.record_type

  abbrev pub observed_identity : Observation F → EndpointIdentity
  observed_identity o = record { pool_id = o.pool_id; endpoint = o.endpoint; tls = o.tls }

  Keeps : Observation F → Observation F → Type 0
  Keeps b c =
      (observed_identity b ≡ observed_identity c)
      × (is_block b ≡ is_block c)
      × (b.arrived ≡ c.arrived)

  with_coinbase-Keeps :
      (b : Observation F) (e : Option (CoinbaseEvidence F)) → Keeps (with_coinbase fl b e) b
  unfolding Keeps
  with_coinbase-Keeps b none = (refl, refl, refl)
  with_coinbase-Keeps b (some e) = (refl, refl, refl)

  -- whether the sample of an endpoint has an arrival
  abbrev pub has_arrival : Option (EndpointBlockSample F) → Bool
  has_arrival none = false
  has_arrival (some s) = is_some s.offset_ms

  block_observation-identity :
      (sample : Observation F) (run_id : Bytes) (index : ℕ) (i : EndpointIdentity)
      (found : Option (EndpointBlockSample F))
      → let b = block_observation fl sample run_id index i found in
        (observed_identity b ≡ i) × (is_block b ≡ true) × (b.arrived ≡ has_arrival found)
  unfolding block_observation Keeps
  block_observation-identity sample run_id index i none = (refl, refl, refl)
  block_observation-identity sample run_id index i (some s) = go s.offset_ms
    where
      go :
          (o : Option F)
          → let b =
              with_coinbase fl
                (with_offset fl
                  (block_observation fl sample run_id index i none)
                  sample.block_height
                  o)
                s.coinbase in
            (observed_identity b ≡ i) × (is_block b ≡ true) × (b.arrived ≡ is_some o)
      go none = with_coinbase-Keeps _ s.coinbase
      go (some x) = with_coinbase-Keeps _ s.coinbase

  setup_observation-no_block :
      (sample : Observation F) (run_id : Bytes) (i : EndpointIdentity) (index : ℕ) (method : Bytes)
      (s : Option (ProtocolSample F))
      → keep is_block (setup_observation fl sample run_id i index method s) ≡ []
  unfolding setup_observation
  setup_observation-no_block sample run_id i index method none = refl
  setup_observation-no_block sample run_id i index method (some s) = refl

  setup_observations-no_block :
      (sample : Observation F) (run_id : Bytes) (i : EndpointIdentity) (index : ℕ)
      (setup : Option (EndpointSetup F))
      → keep is_block (if_setup fl sample run_id i index setup) ≡ []
  unfolding setup_observations
  setup_observations-no_block sample run_id i index none = refl
  setup_observations-no_block sample run_id i index (some setup) =
      simp (keep-append, setup_observation-no_block)

  -- the endpoint of a block observation, with whether it arrived
  abbrev pub outcome : Observation F → EndpointIdentity × Bool
  outcome o = (observed_identity o, o.arrived)

  -- The last of the samples with a report key.
  abbrev pub last_for : Bytes → List (EndpointBlockSample F) → Option (EndpointBlockSample F)
  last_for key [] = none
  last_for key (s ∷ rest) =
      or_else (last_for key rest)
        (if eqb (endpoint_report_key s.pool_id s.endpoint s.tls) key then some s else none)

  or_else-if :
      (later : Option (EndpointBlockSample F)) (b : Bool) (s : EndpointBlockSample F)
      (before : Option (EndpointBlockSample F))
      → or_else later (if b then some s else before)
        ≡ or_else (or_else later (if b then some s else none)) before
  or_else-if none true s before = refl
  or_else-if none false s before = refl
  or_else-if (some t) b s before = refl

  find-provided_from :
      (key : Bytes) (provided : List (Bytes × EndpointBlockSample F))
      (samples : List (EndpointBlockSample F))
      → find key (provided_from fl provided samples)
        ≡ or_else (last_for key samples) (find key provided)
  unfolding provided_from
  find-provided_from key provided [] = refl
  find-provided_from key provided (s ∷ rest) =
      let k = endpoint_report_key s.pool_id s.endpoint s.tls in
      find-provided_from key (insert k s provided) rest
      ∙ ap (or_else (last_for key rest)) (find-insert k key s provided)
      ∙ or_else-if (last_for key rest) (eqb k key) s (find key provided)

  or_else-none : (x : Option (EndpointBlockSample F)) → or_else x none ≡ x
  or_else-none none = refl
  or_else-none (some x) = refl

  -- the same, as the samples of the record tell it
  abbrev pub expected : Observation F → EndpointIdentity → EndpointIdentity × Bool
  expected sample i = (
    i,
    has_arrival (last_for (endpoint_report_key i.pool_id i.endpoint i.tls) sample.endpoint_samples),
  )

  expand_endpoints-outcome :
      (sample : Observation F) (run_id : Bytes) (index : ℕ) (is : List EndpointIdentity)
      → map outcome (
          keep is_block (
            expand_endpoints fl sample run_id
              (provided_from fl [] sample.endpoint_samples)
              index
              is))
        ≡ map (expected sample) is
  unfolding expand_endpoints
  expand_endpoints-outcome sample run_id index [] = refl
  expand_endpoints-outcome sample run_id index (e ∷ is) =
      let provided = provided_from fl [] sample.endpoint_samples in
      let found = find (identity_key e) provided in
      let given : found ≡ last_for (identity_key e) sample.endpoint_samples =
        find-provided_from (identity_key e) [] sample.endpoint_samples
        ∙ or_else-none (last_for (identity_key e) sample.endpoint_samples) in
      let block = block_observation fl sample run_id index e found in
      let rest = expand_endpoints fl sample run_id provided (index + 1) is in
      let (same, kept, arrived) = block_observation-identity sample run_id index e found in
      rw
        (
          kept,
          keep-append is_block (if_setup fl sample run_id e index (setup_of fl found)) rest,
          setup_observations-no_block sample run_id e index (setup_of fl found),
        )
        (ap₂ (λ x xs. x ∷ xs) (λ j. (same j, (arrived ∙ ap has_arrival given) j))
          (expand_endpoints-outcome sample run_id (index + 1) is))

  -- The block observations of an atomic block sample are one for each eligible endpoint, in their order, and one has
  -- arrived exactly if the last of the samples with the report key of its endpoint has an arrival.
  pub expand_sample-outcome :
      (configured : List EndpointIdentity) (sample : Observation F)
      → eqb sample.record_type record_type_block_sample ≡ true
      → map outcome (keep is_block (expand_sample fl configured sample))
        ≡ map (expected sample) (eligible_of fl configured sample)
  unfolding expand_sample completion
  expand_sample-outcome configured sample h =
      rw
        (
          h,
          keep-append is_block
              (expand_endpoints fl sample (run_id_of fl sample)
                (provided_from fl [] sample.endpoint_samples) 0 (eligible_of fl configured sample))
              (completion fl sample (run_id_of fl sample)
                  (length (eligible_of fl configured sample))
                ∷ []),
        )
        (simp append-nil (
          expand_endpoints-outcome sample (run_id_of fl sample) 0
            (eligible_of fl configured sample)))
