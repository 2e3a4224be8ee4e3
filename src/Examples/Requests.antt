-- ===== src/Examples/Requests.antt =====
-- Requests to the endpoint, and the theorems on the limiter and on the handler.
use stratum_stats.Base.{
  ℕ, ◌+◌, ◌-◌, ◌*◌, ◌≤◌, ◌≡◌, refl, true, bytes, List, [], ◌∷◌, ◌++◌, some, ok, arith, hex_encode,
  hex_decode,
}
use stratum_stats.Model.{second}
use stratum_stats.Ingest.Limit.{
  default_limits, new_limiter, run, acquire, arrive, leave, RequestLimiter, Action,
}
use stratum_stats.Ingest.Limit.Rate.{
  IsBounded, new_limiter-IsBounded, run-IsBounded, run-rate, acquire-after_pause,
}
use stratum_stats.Ingest.Receiver.{
  commit, Request, Libraries, Settings, Server, Batch, prepare, answer, authenticate, parse_int,
  unix, signature_valid, expiry_of, serve, accepted, duplicate_batch, replay_key,
}
use stratum_stats.Ingest.Replay.{claim, prune}
use stratum_stats.Model.Region.{region_vantage}
use stratum_stats.Ingest.Target.{
  allowed_block_targets, allowed_configuration, target_endpoints, add_pools, add_endpoints,
  is_skipped, identity_of,
}
use stratum_stats.Ingest.Envelope.{
  validate, validate_block_envelope, valid_id, valid_revision, valid_block_id, check_sample,
  check_samples, derive_observation,
}
use stratum_stats.Ingest.Receiver.NoReplay.{serve_all, serve_all-refuses-replay}
use stratum_stats.Ingest.Receiver.Fresh.{prepare-le}
use stratum_stats.Examples.Samples.{naturals, digest, in_order}
use stratum_stats.Examples.Envelopes.{configuration, envelope, observation, now}

abbrev actions : List Action
actions = arrive 5 ∷ arrive second ∷ leave ∷ arrive (2 * second) ∷ []

run-IsBounded_example :
    IsBounded default_limits (run default_limits (new_limiter default_limits 3) actions).0
run-IsBounded_example =
    run-IsBounded default_limits (new_limiter default_limits 3) actions
      (new_limiter-IsBounded default_limits 3)

run-rate_example :
    (run default_limits (new_limiter default_limits 3) actions).1 * second
    ≤ default_limits.burst * second + (2 * second - 3) * default_limits.rate
run-rate_example = run-rate default_limits 3 (2 * second) actions (omega arith) (ground arith)

-- no token left, one request in flight
abbrev spent : RequestLimiter
spent = record { tokens = 0; last = 5; in_flight = 1 }

acquire-after_pause_example : (acquire default_limits (5 + second) spent).1 ≡ true
acquire-after_pause_example =
    acquire-after_pause default_limits (5 + second) spent (omega arith) (omega arith) (omega arith)
      (omega arith)

abbrev libraries : Libraries ℕ (Unit {0})
libraries = record {
  media_type = λ value. some value;
  hmac_sha256 = λ key text. digest (key ++ text);
  sha256 = digest;
  decode_envelope = λ raw. ok envelope;
}

abbrev settings : Settings
settings = record {
  configuration = configuration;
  keys = (bytes "k", bytes "secret") ∷ [];
  can_append = true;
  guards_replays = true;
}

abbrev request : Request
request = record {
  method = bytes "POST";
  content_type = bytes "application/json";
  content_encoding = bytes "gzip";
  key_id = bytes "k";
  timestamp = bytes "1000";
  signature = hex_encode (digest (bytes "secret1000" ++ (10 ∷ bytes "raw")));
  body = some (bytes "raw");
}

abbrev batch : Batch ℕ
batch = record {
  key = replay_key (bytes "k") envelope.batch_id;
  batch_id = envelope.batch_id;
  expires_at = now + 300 * second;
  observation = observation;
}

abbrev server : Server ℕ
server = record { guard = []; log = [] }

prepare-request : prepare naturals libraries in_order settings request now ≡ ok batch
unfolding prepare authenticate parse_int unix signature_valid hex_encode validate
    validate_block_envelope valid_id region_vantage valid_revision hex_decode allowed_block_targets
    allowed_configuration valid_block_id target_endpoints add_pools add_endpoints is_skipped
    check_samples check_sample identity_of derive_observation expiry_of
prepare-request = refl

serve-request :
    (serve naturals libraries in_order settings request now true server).1
    ≡ accepted envelope.batch_id
unfolding serve answer prepare authenticate parse_int unix signature_valid hex_encode validate
    validate_block_envelope valid_id region_vantage valid_revision hex_decode allowed_block_targets
    allowed_configuration valid_block_id target_endpoints add_pools add_endpoints is_skipped
    check_samples check_sample identity_of derive_observation claim prune commit
serve-request = refl

prepare-le_example : now ≤ batch.expires_at
prepare-le_example =
    prepare-le naturals libraries in_order settings request now batch prepare-request

serve_all-refuses-replay_example :
    let after =
      serve_all naturals libraries in_order settings []
        (serve naturals libraries in_order settings request now true server).0 in
    ((serve naturals libraries in_order settings request now true after).1 ≡ duplicate_batch)
    × ((serve naturals libraries in_order settings request now true after).0.log ≡ after.log)
serve_all-refuses-replay_example =
    serve_all-refuses-replay naturals libraries in_order settings request now true server batch
      envelope.batch_id [] request now true batch refl prepare-request serve-request tt
      prepare-request refl (omega arith)
