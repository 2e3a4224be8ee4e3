-- ===== src/Ingest/Envelope.antt =====
-- validateBlockEnvelope of internal/ingest/ingest.go: what a probe's envelope must satisfy, and the
-- observation that is derived from it.
pub mod Height
pub mod Sample
pub mod Arrival
use stratum_stats.Base.{
  ℕ, zero, suc, ℤ, pos, eq_ℕ, ◌+◌, ◌-◌, ◌/◌, Bool, true, false, ◌&&◌, ◌||◌, not, Bytes, bytes, eqb,
  lexb, is_empty, List, [], ◌∷◌, ◌++◌, Option, none, some, map, length, take, drop, ltb, leb, ◌==◌,
  if◌then◌else◌, find, insert, bytes_eq, nat_eq, Outcome, ok, err, guard, ◌>>=◌, ◌>>◌, Float,
  hex_decode,
}
use stratum_stats.Model.{
  Time, second, EndpointIdentity, EndpointSetup, ProtocolSample, ForwardedEndpointSample,
  BlockSample, EndpointBlockSample, CoinbaseOutput, CoinbaseSource, CoinbaseEvidence, Observation,
  zero_observation, observation_version, source_remote_scheduled, record_type_block_sample,
  protocol_status_ok, protocol_status_rejected, protocol_status_timeout, protocol_status_error,
}
use stratum_stats.Model.Region.{region_vantage}
use stratum_stats.Probe.Reader.{CoinbaseError}
use stratum_stats.Probe.Source.{analyze_coinbase_source}
use stratum_stats.Ingest.Target.{identity_eq, contains, Configuration, allowed_block_targets}

pub record Envelope (F : Type 0) : Type 0 where
  pub schema_version : ℤ
  pub batch_id : Bytes
  pub config_revision : Bytes
  pub region : Bytes
  pub filter_continents : Bool
  pub sample : Option (BlockSample F)

pub data EnvelopeError : Type 0 where
  unsupported_envelope_version invalid_envelope_identity missing_block_sample : EnvelopeError
  invalid_region invalid_configuration_revision unknown_revision invalid_block_sample :
      EnvelopeError
  invalid_identity empty_sample invalid_receive_time : ℕ → EnvelopeError
  invalid_setup : ℕ → EnvelopeError
  needs_arrival : EnvelopeError

-- BlockEnvelopeVersion
abbrev block_envelope_version : ℕ
block_envelope_version = 3

abbrev is_id_character : ℕ → Bool
is_id_character c =
    (leb b'a' c && leb c b'z')
    || ((leb b'A' c && leb c b'Z')
        || ((leb b'0' c && leb c b'9')
            || ((c == b'-') || ((c == b'_') || ((c == b'.') || ((c == b'/') || (c == b':')))))))

unfoldable pub all_id_characters : Bytes → Bool
all_id_characters [] = true
all_id_characters (c ∷ cs) = is_id_character c && all_id_characters cs

-- validID
unfoldable pub valid_id : Bytes → ℕ → Bool
unfolding all_id_characters
valid_id value max =
    if is_empty value || ltb max (length value) then false else all_id_characters value

-- `hex.DecodeString` succeeds
abbrev is_hex : Bytes → Bool
is_hex value = elim (hex_decode value) [ none ↦ false | some decoded ↦ true ]

-- validBlockID
unfoldable pub valid_block_id : Bytes → Bool
valid_block_id value = elim (hex_decode value) [
  | none ↦ false
  | some decoded ↦ length decoded == 32
]

-- validRevision
unfoldable pub valid_revision : Bytes → Bool
valid_revision value =
    if not (eqb (take 7 value) (bytes "sha256:")) || not (length value == 71)
    then false
    else is_hex (drop 7 value)

unfoldable pub one_of : Bytes → List Bytes → Bool
one_of value [] = false
one_of value (x ∷ xs) = eqb value x || one_of value xs

-- mostObservedHeight, over the counts in the order of the run
unfoldable pub more_observed : ℕ × ℕ → ℕ × ℕ → ℕ × ℕ
more_observed (selected, best) (height, count) =
    if ltb best count || ((count == best) && ((selected == 0) || ltb height selected))
    then (height, count)
    else (selected, best)

unfoldable pub most_observed_from : ℕ × ℕ → List (ℕ × ℕ) → ℕ × ℕ
unfolding more_observed
most_observed_from s [] = s
most_observed_from s (c ∷ cs) = most_observed_from (more_observed s c) cs

unfoldable pub most_observed_height : List (ℕ × ℕ) → ℕ
unfolding most_observed_from
most_observed_height counts = (most_observed_from (0, 0) counts).0

-- `heightCounts[height]++`
unfoldable pub count_height : ℕ → List (ℕ × ℕ) → List (ℕ × ℕ)
count_height height counts = elim (find height counts) [
  | none ↦ insert height 1 counts
  | some n ↦ insert height (n + 1) counts
]

-- the order of the eligible endpoints
unfoldable pub identity_before : EndpointIdentity → EndpointIdentity → Bool
identity_before a b =
    if not (eqb a.pool_id b.pool_id)
    then lexb a.pool_id b.pool_id
    else if not (eqb a.endpoint b.endpoint)
    then lexb a.endpoint b.endpoint
    else not a.tls && b.tls

unfoldable pub insert_identity : EndpointIdentity → List EndpointIdentity → List EndpointIdentity
unfolding identity_before
insert_identity x [] = x ∷ []
insert_identity x (y ∷ ys) = if identity_before y x then y ∷ insert_identity x ys else x ∷ y ∷ ys

unfoldable pub sort_identities : List EndpointIdentity → List EndpointIdentity
unfolding insert_identity
sort_identities [] = []
sort_identities (x ∷ xs) = insert_identity x (sort_identities xs)

abbrev pub is_some : {A : Type 0} → Option A → Bool
is_some none = false
is_some (some a) = true

module _ (fl : Float) where
  open fl use {F, of_ℕ, div}

  -- the checks of one protocol result
  unfoldable pub valid_protocol_sample : Time → Option (ProtocolSample F) → Bool
  unfolding one_of valid_id
  valid_protocol_sample sent_at none = true
  valid_protocol_sample sent_at (some s) =
      not (s.observed_at == 0)
      && (leb s.observed_at (sent_at + second)
          && (fl.finite s.duration_ms
              && (not (fl.ltb s.duration_ms (of_ℕ 0))
                  && (one_of s.response_status (
                        protocol_status_ok ∷ protocol_status_rejected ∷ protocol_status_timeout
                        ∷ protocol_status_error ∷ [])
                      && (is_empty s.error_category || valid_id s.error_category 128)))))

  -- validateEndpointSetup: whether it returns nil
  unfoldable pub valid_endpoint_setup : Option (EndpointSetup F) → Bool → Time → Bool
  unfolding valid_protocol_sample
  valid_endpoint_setup none tls_endpoint sent_at = true
  valid_endpoint_setup (some s) tls_endpoint sent_at =
      (is_some s.connect || (is_some s.tls || (is_some s.subscribe || is_some s.authorize)))
      && ((tls_endpoint || not (is_some s.tls))
          && (valid_protocol_sample sent_at s.connect
              && (valid_protocol_sample sent_at s.tls
                  && (valid_protocol_sample sent_at s.subscribe
                      && valid_protocol_sample sent_at s.authorize))))

  -- What the loop over the samples keeps.
  pub record Progress : Type 0 where
    pub seen : List EndpointIdentity
    pub arrivals : List (EndpointIdentity × Time)
    pub coinbases : List (EndpointIdentity × CoinbaseEvidence F)
    pub height_counts : List (ℕ × ℕ)
    pub first : Time

  abbrev pub no_progress : Progress
  no_progress = record { seen = []; arrivals = []; coinbases = []; height_counts = []; first = 0 }

  abbrev pub identity : ForwardedEndpointSample F → EndpointIdentity
  identity s = record { pool_id = s.pool_id; endpoint = s.endpoint; tls = s.tls }

  -- an analysis that succeeds is kept, with its height where that is positive; one that fails is not
  unfoldable pub keep_coinbase :
      EndpointIdentity → Outcome CoinbaseError (ℕ × CoinbaseEvidence F) → Progress → Progress
  unfolding count_height
  keep_coinbase i (err e) p = p
  keep_coinbase i (ok (height, evidence)) p = record p {
    coinbases = insert i evidence p.coinbases;
    height_counts = if ltb 0 height then count_height height p.height_counts else p.height_counts;
  }

  module _ (sha256 : Bytes → Bytes) (visit : List CoinbaseOutput → List CoinbaseOutput)
      (endpoints : List EndpointIdentity) (now : Time) where
    -- the part of the body behind `receivedAt`
    unfoldable pub arrive :
        ℕ
        → EndpointIdentity
        → Time
        → Option CoinbaseSource
        → Progress
        → Outcome EnvelopeError Progress
    unfolding keep_coinbase
    arrive index i received_at source p =
        if (received_at == 0) || ltb (now + second) received_at
        then err (invalid_receive_time index)
        else let p' = record p {
          arrivals = insert i received_at p.arrivals;
          first = if (p.first == 0) || ltb received_at p.first then received_at else p.first;
        } in
          elim source [
            | none ↦ ok p'
            | some c ↦ ok (keep_coinbase i (analyze_coinbase_source fl sha256 visit c) p')
          ]

    -- the body of the loop
    unfoldable pub check_sample :
        ℕ → ForwardedEndpointSample F → Progress → Outcome EnvelopeError Progress
    unfolding valid_endpoint_setup arrive
    check_sample index s p =
        if not (contains (identity s) endpoints) || contains (identity s) p.seen
        then err (invalid_identity index)
        else if not (valid_endpoint_setup s.setup s.tls now)
        then err (invalid_setup index)
        else if not (is_some s.received_at) && not (is_some s.setup)
        then err (empty_sample index)
        else let p' = record p { seen = identity s ∷ p.seen } in
          elim s.received_at [
            | none ↦ ok p'
            | some received_at ↦ arrive index (identity s) received_at s.coinbase p'
          ]

    unfoldable pub check_samples :
        ℕ → List (ForwardedEndpointSample F) → Progress → Outcome EnvelopeError Progress
    check_samples index [] p = ok p
    check_samples index (s ∷ rest) p = do
      p' ← check_sample index s p
      check_samples (index + 1) rest p'

  -- float64(receivedAt.Sub(first).Microseconds()) / 1000
  unfoldable pub offset_ms : Time → Time → F
  offset_ms first received_at = div (of_ℕ ((received_at - first) / 1000)) (of_ℕ 1000)

  unfoldable pub derive_sample : Progress → ForwardedEndpointSample F → EndpointBlockSample F
  unfolding offset_ms
  derive_sample p s = record {
    pool_id = s.pool_id;
    endpoint = s.endpoint;
    tls = s.tls;
    offset_ms = elim (find (identity s) p.arrivals) [
      | none ↦ none
      | some received_at ↦ some (offset_ms p.first received_at)
    ];
    setup = s.setup;
    coinbase = find (identity s) p.coinbases;
  }

  -- the loop that derives the samples, without those that would be empty
  unfoldable pub derive_samples :
      Progress → List (ForwardedEndpointSample F) → List (EndpointBlockSample F)
  unfolding derive_sample
  derive_samples p [] = []
  derive_samples p (s ∷ rest) =
      let d = derive_sample p s in
      let more = derive_samples p rest in
      if not (is_some d.offset_ms) && not (is_some d.setup) then more else d ∷ more

  module _ (sha256 : Bytes → Bytes) (visit : List CoinbaseOutput → List CoinbaseOutput) where
    -- the end of the function: the observation of the whole block
    unfoldable pub derive_observation :
        Envelope F → Bytes → BlockSample F → List EndpointIdentity → Progress → Observation F
    unfolding derive_samples sort_identities most_observed_height
    derive_observation envelope vantage forwarded endpoints p = record (zero_observation (of_ℕ 0)) {
      version = observation_version;
      observation_id = envelope.batch_id;
      source = source_remote_scheduled;
      run_id = envelope.batch_id;
      config_revision = envelope.config_revision;
      record_type = record_type_block_sample;
      observed_at = p.first;
      vantage = vantage;
      block_id = forwarded.block_id;
      block_height = most_observed_height p.height_counts;
      endpoint_samples = derive_samples p forwarded.endpoint_samples;
      eligible_endpoints = sort_identities endpoints;
    }

    abbrev require : {A : Type 0} → Option A → EnvelopeError → Outcome EnvelopeError A
    require (some a) e = ok a
    require none e = err e

    unfoldable pub validate_block_envelope :
        Configuration → Envelope F → Time → Outcome EnvelopeError (Observation F)
    validate_block_envelope c envelope now = do
      guard (valid_id envelope.batch_id 128) invalid_envelope_identity
      forwarded ← require envelope.sample missing_block_sample
      vantage ← require (region_vantage envelope.region) invalid_region
      guard (valid_revision envelope.config_revision) invalid_configuration_revision
      endpoints ←
          require
            (allowed_block_targets c envelope.config_revision vantage envelope.filter_continents
              now)
            unknown_revision
      guard
          (valid_block_id forwarded.block_id
            && (eqb envelope.batch_id (envelope.region ++ (b'-' ∷ forwarded.block_id))
                && (not (length forwarded.endpoint_samples == 0)
                    && leb (length forwarded.endpoint_samples) (length endpoints))))
          invalid_block_sample
      p ← check_samples sha256 visit endpoints now 0 forwarded.endpoint_samples no_progress
      guard (not (length p.arrivals == 0)) needs_arrival
      ok (derive_observation envelope vantage forwarded endpoints p)

    -- validate
    unfoldable pub validate :
        Configuration → Envelope F → Time → Outcome EnvelopeError (Observation F)
    validate c envelope now = do
      guard (eq_ℕ envelope.schema_version block_envelope_version) unsupported_envelope_version
      validate_block_envelope c envelope now
