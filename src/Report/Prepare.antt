-- ===== src/Report/Prepare.antt =====
-- prepareObservations of internal/report/report.go: what is retained, without duplicates, with each
-- atomic block sample expanded into the flat observations that the reports count.
pub mod Unique
pub mod Expand
use stratum_stats.Base.{
  ℕ, pos, ◌+◌, ◌-◌, ◌*◌, Bool, true, false, ◌||◌, ◌&&◌, ◌==◌, not, Bytes, bytes, eqb, is_empty,
  List, [], ◌∷◌, ◌++◌, Option, none, some, length, ltb, if◌then◌else◌, find, insert, bytes_eq, keep,
  has, Float, decimal_ℕ,
}
use stratum_stats.Model.{
  Time, second, Endpoint, Pool, EndpointIdentity, EndpointSetup, ProtocolSample,
  EndpointBlockSample, CoinbaseEvidence, Observation, zero_observation, observation_version,
  record_type_block_sample, record_type_probe_run, record_type_protocol, protocol_connect,
  protocol_tls_handshake, protocol_subscribe, protocol_authorize,
}
use stratum_stats.Report.Keys.{endpoint_address, endpoint_report_key}

-- 30 * 24 * time.Hour
abbrev pub retention_window : ℕ
retention_window = 30 * 24 * 3600 * second

module _ {F : Type 0} where
  -- the test of RetainObservations
  unfoldable pub is_retained : Time → Observation F → Bool
  is_retained now o = not (ltb o.observed_at (now - retention_window) || ltb now o.observed_at)

  unfoldable pub retain_observations : List (Observation F) → Time → List (Observation F)
  unfolding is_retained
  retain_observations os now = keep (is_retained now) os

  -- the loop of uniqueObservations, with the ids that it has seen
  unfoldable pub unique_from : List Bytes → List (Observation F) → List (Observation F)
  unique_from seen [] = []
  unique_from seen (o ∷ os) =
      let id = o.observation_id in
      let skipped = not (is_empty id) && has id seen in
      let rest = unique_from (if is_empty id || skipped then seen else id ∷ seen) os in
      if skipped then rest else o ∷ rest

  unfoldable pub unique_observations : List (Observation F) → List (Observation F)
  unfolding unique_from
  unique_observations = unique_from []

-- configuredEndpointIdentities
unfoldable pub pool_identities : Pool → List Endpoint → List EndpointIdentity
pool_identities pool [] = []
pool_identities pool (e ∷ es) =
    record { pool_id = pool.id; endpoint = endpoint_address e; tls = e.tls }
    ∷ pool_identities pool es

unfoldable pub configured_endpoint_identities : List Pool → List EndpointIdentity
unfolding pool_identities
configured_endpoint_identities [] = []
configured_endpoint_identities (p ∷ ps) =
    pool_identities p p.endpoints ++ configured_endpoint_identities ps

abbrev pub identity_key : EndpointIdentity → Bytes
identity_key i = endpoint_report_key i.pool_id i.endpoint i.tls

module _ (fl : Float) where
  open fl use {F, of_ℕ}

  -- the map `provided`: a later sample of an endpoint replaces an earlier one
  unfoldable pub provided_from :
      List (Bytes × EndpointBlockSample F)
      → List (EndpointBlockSample F)
      → List (Bytes × EndpointBlockSample F)
  provided_from provided [] = provided
  provided_from provided (s ∷ rest) =
      provided_from (insert (endpoint_report_key s.pool_id s.endpoint s.tls) s provided) rest

  abbrev with_offset : Observation F → ℕ → Option F → Observation F
  with_offset block height none = block
  with_offset block height (some offset) = record block {
    arrived = true;
    offset_ms = offset;
    block_height = height;
  }

  abbrev with_coinbase : Observation F → Option (CoinbaseEvidence F) → Observation F
  with_coinbase block none = block
  with_coinbase block (some evidence) = record block {
    coinbase_analyzed = true;
    worker_wallet_in_coinbase = evidence.worker_wallet_in_coinbase;
    coinbase_total_sats = evidence.coinbase_total_sats;
    worker_payout_sats = evidence.worker_payout_sats;
    coinbase_outputs = evidence.coinbase_outputs;
    coinbase_output_count = pos evidence.coinbase_output_count;
    coinbase_outputs_truncated = evidence.coinbase_outputs_truncated;
    coinbase_omitted_sats = evidence.coinbase_omitted_sats;
    estimated_pool_fee_pct = evidence.estimated_pool_fee_pct;
  }

  -- `block`, from the sample of its endpoint where there is one
  unfoldable pub block_observation :
      Observation F → Bytes → ℕ → EndpointIdentity → Option (EndpointBlockSample F) → Observation F
  block_observation sample run_id index i found =
      let block : Observation F = record (zero_observation (of_ℕ 0)) {
        version = observation_version;
        observation_id = sample.observation_id ++ (bytes "/block/" ++ decimal_ℕ index);
        source = sample.source;
        run_id = run_id;
        machine_id = sample.machine_id;
        agent_version = sample.agent_version;
        config_revision = sample.config_revision;
        observed_at = sample.observed_at;
        vantage = sample.vantage;
        block_id = sample.block_id;
        pool_id = i.pool_id;
        endpoint = i.endpoint;
        eligible = true;
        tls = i.tls;
      } in
      elim found [
        | none ↦ block
        | some s ↦ with_coinbase (with_offset block sample.block_height s.offset_ms) s.coinbase
      ]

  -- one round of the loop of appendSetupObservations
  unfoldable pub setup_observation :
      Observation F
      → Bytes
      → EndpointIdentity
      → ℕ
      → Bytes
      → Option (ProtocolSample F)
      → List (Observation F)
  setup_observation block run_id i index method none = []
  setup_observation block run_id i index method (some s) =
      record (zero_observation (of_ℕ 0)) {
        version = observation_version;
        observation_id =
            block.observation_id ++ (bytes "/setup/" ++ (decimal_ℕ index ++ (b'/' ∷ method)));
        source = block.source;
        run_id = run_id;
        machine_id = block.machine_id;
        agent_version = block.agent_version;
        config_revision = block.config_revision;
        record_type = record_type_protocol;
        endpoint = i.endpoint;
        protocol_method = method;
        duration_ms = some s.duration_ms;
        response_status = s.response_status;
        observed_at = s.observed_at;
        vantage = block.vantage;
        pool_id = i.pool_id;
        tls = i.tls;
        error_category = s.error_category;
      }
      ∷ []

  -- appendSetupObservations, without the observations that it appends to
  unfoldable pub setup_observations :
      Observation F → Bytes → EndpointIdentity → ℕ → EndpointSetup F → List (Observation F)
  unfolding setup_observation
  setup_observations block run_id i index setup =
      setup_observation block run_id i index protocol_connect setup.connect
      ++ (setup_observation block run_id i index protocol_tls_handshake setup.tls
          ++ (setup_observation block run_id i index protocol_subscribe setup.subscribe
              ++ setup_observation block run_id i index protocol_authorize setup.authorize))

  abbrev setup_of : Option (EndpointBlockSample F) → Option (EndpointSetup F)
  setup_of none = none
  setup_of (some s) = s.setup

  abbrev if_setup :
      Observation F → Bytes → EndpointIdentity → ℕ → Option (EndpointSetup F) → List (Observation F)
  if_setup sample run_id i index none = []
  if_setup sample run_id i index (some setup) = setup_observations sample run_id i index setup

  -- the loop over the eligible endpoints
  unfoldable pub expand_endpoints :
      Observation F
      → Bytes
      → List (Bytes × EndpointBlockSample F)
      → ℕ
      → List EndpointIdentity
      → List (Observation F)
  expand_endpoints sample run_id provided index [] = []
  expand_endpoints sample run_id provided index (i ∷ rest) =
      let found = find (identity_key i) provided in
      block_observation sample run_id index i found
      ∷ (if_setup sample run_id i index (setup_of found)
          ++ expand_endpoints sample run_id provided (index + 1) rest)

  -- the record that stands for the completed run
  unfoldable pub completion : Observation F → Bytes → ℕ → Observation F
  completion sample run_id endpoints = record (zero_observation (of_ℕ 0)) {
    version = observation_version;
    observation_id = sample.observation_id ++ bytes "/complete";
    source = sample.source;
    run_id = run_id;
    machine_id = sample.machine_id;
    agent_version = sample.agent_version;
    config_revision = sample.config_revision;
    record_type = record_type_probe_run;
    observed_at = sample.observed_at;
    vantage = sample.vantage;
    run_started_at = some sample.observed_at;
    run_status = bytes "ok";
    configured_endpoints = pos endpoints;
    accepted_blocks = pos 1;
    uploaded_observations = pos 1;
  }

  -- the endpoints of a sample; a record without any has those that are configured
  unfoldable pub eligible_of : List EndpointIdentity → Observation F → List EndpointIdentity
  eligible_of configured sample =
      if length sample.eligible_endpoints == 0 then configured else sample.eligible_endpoints

  unfoldable pub run_id_of : Observation F → Bytes
  run_id_of sample = if is_empty sample.run_id then sample.observation_id else sample.run_id

  -- one round of the loop of expandBlockSamples
  unfoldable pub expand_sample : List EndpointIdentity → Observation F → List (Observation F)
  unfolding expand_endpoints completion provided_from block_observation setup_observations
  expand_sample configured sample =
      if not (eqb sample.record_type record_type_block_sample)
      then sample ∷ []
      else expand_endpoints sample (run_id_of sample) (provided_from [] sample.endpoint_samples) 0
          (eligible_of configured sample)
        ++ (completion sample (run_id_of sample) (length (eligible_of configured sample)) ∷ [])

  unfoldable pub expand_all : List EndpointIdentity → List (Observation F) → List (Observation F)
  unfolding expand_sample
  expand_all configured [] = []
  expand_all configured (o ∷ os) = expand_sample configured o ++ expand_all configured os

  -- expandBlockSamples
  unfoldable pub expand_block_samples : List Pool → List (Observation F) → List (Observation F)
  unfolding expand_all
  expand_block_samples pools os = expand_all (configured_endpoint_identities pools) os

  unfoldable pub prepare_observations :
      List Pool → List (Observation F) → Time → List (Observation F)
  prepare_observations pools os now =
      expand_block_samples pools (unique_observations (retain_observations os now))
