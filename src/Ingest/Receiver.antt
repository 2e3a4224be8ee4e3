-- ===== src/Ingest/Receiver.antt =====
-- Receiver.ServeHTTP and authenticate of internal/ingest/ingest.go. The decoders of the body (gzip and
-- JSON), mime.ParseMediaType and HMAC-SHA256 are parameters; whether the append succeeds is given by
-- the environment.
pub mod Fresh
pub mod NoReplay
use stratum_stats.Base.{
  ℕ, zero, suc, ℤ, pos, negsuc, ◌+◌, ◌-◌, ◌*◌, ◌^◌, Bool, true, false, ◌&&◌, ◌||◌, not, Bytes,
  bytes, eqb, is_empty, List, [], ◌∷◌, ◌++◌, Option, none, some, length, ltb, leb, ◌==◌,
  if◌then◌else◌, find, bytes_eq, Outcome, ok, err, guard, ◌>>=◌, ◌>>◌, Float, hex_decode,
}
use stratum_stats.Model.{Time, second, CoinbaseOutput, Observation}
use stratum_stats.Ingest.Replay
use stratum_stats.Ingest.Replay.{ReplayGuard, claim}
use stratum_stats.Ingest.Target.{Configuration}
use stratum_stats.Ingest.Envelope.{Envelope, EnvelopeError, validate}

abbrev pub max_compressed_bytes : ℕ
max_compressed_bytes = 256 * 2 ^ 10

abbrev pub max_request_clock_skew : ℕ
max_request_clock_skew = 300 * second

-- What the handler reads of a request; a header that is missing is the empty text, and `body` is
-- `none` where reading it fails.
pub record Request : Type 0 where
  pub method : Bytes
  pub content_type : Bytes
  pub content_encoding : Bytes
  pub key_id : Bytes
  pub timestamp : Bytes
  pub signature : Bytes
  pub body : Option Bytes

pub data AuthError : Type 0 where
  json_required gzip_required invalid_authentication stale_authentication : AuthError
  cannot_read compressed_too_large : AuthError

pub data Response (D : Type 0) : Type 0 where
  method_not_allowed ingestion_unavailable duplicate_batch append_failed : Response D
  refused : AuthError → Response D
  undecodable : D → Response D
  unprocessable : EnvelopeError → Response D
  accepted : Bytes → Response D

-- strconv.ParseInt(text, 10, 64): the digits, without a sign
digits_from : ℕ → Bytes → Option ℕ
digits_from acc [] = some acc
digits_from acc (c ∷ cs) =
    let rest = digits_from (10 * acc + (c - b'0')) cs in
    if leb b'0' c && leb c b'9' then rest else none

unsigned : Bytes → Option ℕ
unfolding digits_from
unsigned text = if is_empty text then none else digits_from 0 text

negative : ℕ → ℤ
negative zero = pos 0
negative (suc n) = negsuc n

unfoldable pub parse_int : Bytes → Option ℤ
unfolding unsigned negative
parse_int [] = none
parse_int (c ∷ cs) =
    if c == b'-'
    then elim (unsigned cs) [
      | none ↦ none
      | some n ↦ if leb n (2 ^ 63) then some (negative n) else none
    ]
    else elim (unsigned (if c == b'+' then cs else c ∷ cs)) [
      | none ↦ none
      | some n ↦ if ltb n (2 ^ 63) then some (pos n) else none
    ]

-- time.Unix(s, 0): the second 0 is 62135596800 seconds behind the zero time; `none` is a time before
-- that, which no clock is near.
abbrev epoch : ℕ
epoch = 62135596800

unfoldable pub unix : ℤ → Option Time
unix (pos n) = some ((epoch + n) * second)
unix (negsuc n) = if ltb n epoch then some ((epoch - suc n) * second) else none

-- `delta < -maxRequestClockSkew || delta > maxRequestClockSkew` does not hold
abbrev is_fresh : Option Time → Time → Bool
is_fresh none now = false
is_fresh (some t) now = leb t (now + max_request_clock_skew) && leb now (t + max_request_clock_skew)

-- The time of a text that was parsed before; an error leaves 0, as `authTimestamp, _ :=` does.
abbrev stamp_time : Option ℤ → Option Time
stamp_time none = unix (pos 0)
stamp_time (some n) = unix n

abbrev within_skew : Option Time → Time
within_skew none = 0
within_skew (some t) = t + max_request_clock_skew

unfoldable pub expiry_of : Bytes → Time
expiry_of text = within_skew (stamp_time (parse_int text))

unfoldable pub replay_key : Bytes → Bytes → Bytes
replay_key key_id batch_id = key_id ++ (10 ∷ batch_id)

-- The code that is not in this repository.
pub record Libraries (F D : Type 0) : Type 0 where
  pub media_type : Bytes → Option Bytes
  pub hmac_sha256 : Bytes → Bytes → Bytes
  pub sha256 : Bytes → Bytes
  pub decode_envelope : Bytes → Outcome D (Envelope F)

-- Receiver: its configuration and its keys, whether it can append, and whether it guards replays.
pub record Settings : Type 0 where
  pub configuration : Configuration
  pub keys : List (Bytes × Bytes)
  pub can_append : Bool
  pub guards_replays : Bool

-- What the handler changes: the guard, and what has been appended.
pub record Server (F : Type 0) : Type 0 where
  pub guard : ReplayGuard
  pub log : List (Observation F)

-- A request that has passed every check.
pub record Batch (F : Type 0) : Type 0 where
  pub key : Bytes
  pub batch_id : Bytes
  pub expires_at : Time
  pub observation : Observation F

module _ (fl : Float) {D : Type 0} (lib : Libraries fl.F D) where
  open fl use {F}

  abbrev is_json : Option Bytes → Bool
  is_json none = false
  is_json (some t) = eqb t (bytes "application/json")

  -- the signature, of 32 bytes, against the MAC of the timestamp, a newline and the body
  unfoldable pub signature_valid : Bytes → Request → Bytes → Bool
  signature_valid secret r raw = elim (hex_decode r.signature) [
    | none ↦ false
    | some provided ↦
        (length provided == 32) && eqb provided (lib.hmac_sha256 secret (r.timestamp ++ (10 ∷ raw)))
  ]

  abbrev require : {A : Type 0} → Option A → AuthError → Outcome AuthError A
  require (some a) e = ok a
  require none e = err e

  -- authenticate: the body
  unfoldable pub authenticate : Settings → Request → Time → Outcome AuthError Bytes
  authenticate s r now = do
    guard (is_json (lib.media_type r.content_type)) json_required
    guard (eqb r.content_encoding (bytes "gzip")) gzip_required
    secret ← require (find r.key_id s.keys) invalid_authentication
    guard (not (is_empty r.key_id)) invalid_authentication
    timestamp ← require (parse_int r.timestamp) invalid_authentication
    guard (is_fresh (unix timestamp) now) stale_authentication
    raw ← require r.body cannot_read
    guard (leb (length raw) max_compressed_bytes) compressed_too_large
    guard (signature_valid secret r raw) invalid_authentication
    ok raw

  abbrev or_respond : {E A : Type 0} → Outcome E A → (E → Response D) → Outcome (Response D) A
  or_respond (ok a) respond = ok a
  or_respond (err e) respond = err (respond e)

  module _ (visit : List CoinbaseOutput → List CoinbaseOutput) where
    -- ServeHTTP, up to the claim of the replay key
    unfoldable pub prepare : Settings → Request → Time → Outcome (Response D) (Batch F)
    prepare s r now = do
      guard (eqb r.method (bytes "POST")) method_not_allowed
      guard s.can_append ingestion_unavailable
      raw ← or_respond (authenticate s r now) refused
      envelope ← or_respond (lib.decode_envelope raw) undecodable
      observation ←
          or_respond (validate fl lib.sha256 visit s.configuration envelope now) unprocessable
      ok (record {
        key = replay_key r.key_id envelope.batch_id;
        batch_id = envelope.batch_id;
        expires_at = expiry_of r.timestamp;
        observation = observation;
      })

    -- the claim, the append, and the release where the append fails
    unfoldable pub commit : Settings → Batch F → Time → Bool → Server F → Server F × Response D
    commit s b now appends server =
        let (claimed, fresh) = claim b.key now b.expires_at server.guard in
        let guard' = if s.guards_replays then claimed else server.guard in
        if s.guards_replays && not fresh
        then (record server { guard = guard' }, duplicate_batch)
        else if appends
        then (
          record { guard = guard'; log = server.log ++ (b.observation ∷ []) },
          accepted b.batch_id,
        )
        else (
          record server {
            guard = if s.guards_replays then Replay.release_claim b.key guard' else guard';
          },
          append_failed,
        )

    unfoldable pub answer :
        Settings → Time → Bool → Server F → Outcome (Response D) (Batch F) → Server F × Response D
    answer s now appends server (err response) = (server, response)
    answer s now appends server (ok b) = commit s b now appends server

    -- ServeHTTP
    unfoldable pub serve : Settings → Request → Time → Bool → Server F → Server F × Response D
    serve s r now appends server = answer s now appends server (prepare s r now)
