-- ===== src/Examples/Envelopes.antt =====
-- An envelope with one sample, and the theorems on it.
use mathlib.Core.List.{Memᴰ}
use stratum_stats.Base.{
  ℕ, ◌+◌, ◌*◌, ◌≤◌, ◌<◌, ◌≡◌, refl, pos, false, bytes, [], ◌∷◌, ◌++◌, none, some, map, replicate,
  ok, hex_decode, Permᴰ, All, arith,
}
use stratum_stats.Model.{
  Time, second, Pool, EndpointIdentity, ForwardedEndpointSample, Observation, zero_observation,
  observation_version, source_remote_scheduled, record_type_block_sample,
}
use stratum_stats.Ingest.Target.{
  Configuration, allowed_block_targets, allowed_configuration, target_endpoints, add_pools,
  add_endpoints, is_skipped, identity_of,
}
use stratum_stats.Model.Region.{region_vantage}
use stratum_stats.Ingest.Envelope.{
  Envelope, Progress, validate, validate_block_envelope, valid_id, valid_revision, valid_block_id,
  check_sample, derive_observation, check_samples, no_progress, derive_samples, identity,
  most_observed_height,
}
use stratum_stats.Ingest.Envelope.Height.{
  IsUnbeatenBy, most_observed_height-perm, most_observed_height-IsMost,
}
use stratum_stats.Ingest.Envelope.Sample.{derived_identity, check_samples-derive_samples}
use stratum_stats.Ingest.Envelope.Arrival.{IsArrival, NotBefore, OfSamples, validate-observed_at}
use stratum_stats.Examples.Samples.{naturals, digest, in_order}

most_observed_height-perm_example :
    most_observed_height ((900, 2) ∷ (901, 2) ∷ [])
    ≡ most_observed_height ((901, 2) ∷ (900, 2) ∷ [])
most_observed_height-perm_example = most_observed_height-perm (Permᴰ.swap refl refl) (ground arith)

most_observed_height-IsMost_example :
    (n : ℕ) × Memᴰ {A = ℕ × ℕ}
      (most_observed_height ((900, 2) ∷ (901, 2) ∷ []), n)
      ((900, 2) ∷ (901, 2) ∷ [])
    × All
        (IsUnbeatenBy (most_observed_height ((900, 2) ∷ (901, 2) ∷ []), n))
        ((900, 2) ∷ (901, 2) ∷ [])
most_observed_height-IsMost_example =
    most_observed_height-IsMost (900, 2) ((901, 2) ∷ []) (ground arith)

abbrev pool : Pool
pool = record {
  id = bytes "p";
  name = [];
  operator = [];
  website = [];
  category = [];
  status = [];
  products = [];
  endpoints =
      record { host = bytes "h"; port = pos 1; tls = false; region = []; continent = [] } ∷ [];
}

abbrev pub configuration : Configuration
configuration = record { pools = pool ∷ []; pool_revisions = []; revision_expiry = [] }

-- 1000 seconds after the Unix epoch
abbrev pub now : Time
now = (62135596800 + 1000) * second

abbrev endpoint : EndpointIdentity
endpoint = record { pool_id = bytes "p"; endpoint = bytes "h:1"; tls = false }

abbrev sample : ForwardedEndpointSample ℕ
sample = record {
  pool_id = bytes "p";
  endpoint = bytes "h:1";
  tls = false;
  received_at = some now;
  setup = none;
  coinbase = none;
}

abbrev pub envelope : Envelope ℕ
envelope = record {
  schema_version = pos 3;
  batch_id = bytes "ewr-" ++ replicate 64 97;
  config_revision = bytes "sha256:" ++ replicate 64 97;
  region = bytes "ewr";
  filter_continents = false;
  sample = some (record { block_id = replicate 64 97; endpoint_samples = sample ∷ [] });
}

abbrev progress : Progress naturals
progress = record {
  seen = endpoint ∷ [];
  arrivals = (endpoint, now) ∷ [];
  coinbases = [];
  height_counts = [];
  first = now;
}

check_samples_one :
    check_samples naturals digest in_order
      (endpoint ∷ [])
      now
      0
      (sample ∷ [])
      (no_progress naturals)
    ≡ ok progress
unfolding check_samples check_sample
check_samples_one = refl

check_samples-derive_samples_example :
    map derived_identity (derive_samples naturals progress (sample ∷ []))
    ≡ map (identity naturals) (sample ∷ [])
check_samples-derive_samples_example =
    check_samples-derive_samples naturals digest in_order (endpoint ∷ []) now (sample ∷ []) progress
      check_samples_one

abbrev pub observation : Observation ℕ
observation = record (zero_observation 0) {
  version = observation_version;
  observation_id = envelope.batch_id;
  source = source_remote_scheduled;
  run_id = envelope.batch_id;
  config_revision = envelope.config_revision;
  record_type = record_type_block_sample;
  observed_at = now;
  vantage = bytes "us-east";
  block_id = replicate 64 97;
  endpoint_samples =
      record {
        pool_id = bytes "p";
        endpoint = bytes "h:1";
        tls = false;
        offset_ms = some 0;
        setup = none;
        coinbase = none;
      }
      ∷ [];
  eligible_endpoints = endpoint ∷ [];
}

pub validate_one : validate naturals digest in_order configuration envelope now ≡ ok observation
unfolding validate validate_block_envelope valid_id region_vantage valid_revision hex_decode
    allowed_block_targets allowed_configuration valid_block_id target_endpoints add_pools
    add_endpoints is_skipped check_samples check_sample identity_of derive_observation
validate_one = refl

validate-observed_at_example :
    (0 < observation.observed_at)
    × (observation.observed_at ≤ now + second)
    × OfSamples
        (λ (s : ForwardedEndpointSample ℕ). NotBefore now observation.observed_at s.received_at)
        envelope.sample
    × IsArrival observation.observed_at envelope.sample
validate-observed_at_example =
    validate-observed_at naturals digest in_order configuration envelope now observation
      validate_one
