-- ===== src/Model.antt =====
-- internal/model: the records that the parts of the program exchange. A `float64` field has the type
-- `F`, which stands for it; a `time.Time` is a number of nanoseconds since Go's zero time, so that
-- `IsZero` is `== 0`; a pointer is an `Option`, a string the list of its bytes.
pub mod Region
pub mod Location
pub mod Redact
pub mod Reports
use stratum_stats.Base.{
  ℕ, ℤ, pos, Bool, true, false, Bytes, bytes, List, [], ◌∷◌, Option, none, some,
}

abbrev pub Time : Type 0
Time = ℕ

abbrev pub millisecond : ℕ
millisecond = 1_000_000

abbrev pub second : ℕ
second = 1_000_000_000

-- model.ObservationVersion
abbrev pub observation_version : ℤ
observation_version = pos 9

abbrev pub max_retained_coinbase_outputs : ℕ
max_retained_coinbase_outputs = 64

abbrev pub max_retained_coinbase_script_bytes : ℕ
max_retained_coinbase_script_bytes = 80

pub record Endpoint : Type 0 where
  pub host : Bytes
  pub port : ℤ
  pub tls : Bool
  pub region : Bytes
  pub continent : Bytes

pub record Pool : Type 0 where
  pub id : Bytes
  pub name : Bytes
  pub operator : Bytes
  pub website : Bytes
  pub category : Bytes
  pub status : Bytes
  pub products : List Bytes
  pub endpoints : List Endpoint

pub record CoinbaseOutput : Type 0 where
  pub value_sats : ℕ
  pub script_pub_key : Bytes
  pub script_pub_key_truncated : Bool
  pub address : Bytes
  pub script_type : Bytes
  pub worker : Bool

pub record CoinbaseSource : Type 0 where
  pub coinbase1 : Bytes
  pub coinbase2 : Bytes
  pub extra_nonce1 : Bytes
  pub extra_nonce2_size : ℤ
  pub worker_script_sha256 : Bytes

pub record CoinbaseEvidence (F : Type 0) : Type 0 where
  pub worker_wallet_in_coinbase : Bool
  pub coinbase_total_sats : ℕ
  pub worker_payout_sats : ℕ
  pub coinbase_outputs : List CoinbaseOutput
  pub coinbase_output_count : ℕ
  pub coinbase_outputs_truncated : Bool
  pub coinbase_omitted_sats : ℕ
  pub estimated_pool_fee_pct : Option F

pub record ProtocolSample (F : Type 0) : Type 0 where
  pub observed_at : Time
  pub duration_ms : F
  pub response_status : Bytes
  pub error_category : Bytes

pub record EndpointSetup (F : Type 0) : Type 0 where
  pub connect : Option (ProtocolSample F)
  pub tls : Option (ProtocolSample F)
  pub subscribe : Option (ProtocolSample F)
  pub authorize : Option (ProtocolSample F)

pub record EndpointIdentity : Type 0 where
  pub pool_id : Bytes
  pub endpoint : Bytes
  pub tls : Bool

pub record ForwardedEndpointSample (F : Type 0) : Type 0 where
  pub pool_id : Bytes
  pub endpoint : Bytes
  pub tls : Bool
  pub received_at : Option Time
  pub setup : Option (EndpointSetup F)
  pub coinbase : Option CoinbaseSource

pub record BlockSample (F : Type 0) : Type 0 where
  pub block_id : Bytes
  pub endpoint_samples : List (ForwardedEndpointSample F)

pub record EndpointBlockSample (F : Type 0) : Type 0 where
  pub pool_id : Bytes
  pub endpoint : Bytes
  pub tls : Bool
  pub offset_ms : Option F
  pub setup : Option (EndpointSetup F)
  pub coinbase : Option (CoinbaseEvidence F)

pub record Observation (F : Type 0) : Type 0 where
  pub version : ℤ
  pub observation_id : Bytes
  pub source : Bytes
  pub run_id : Bytes
  pub machine_id : Bytes
  pub agent_version : Bytes
  pub config_revision : Bytes
  pub record_type : Bytes
  pub endpoint : Bytes
  pub protocol_method : Bytes
  pub duration_ms : Option F
  pub response_status : Bytes
  pub observed_at : Time
  pub vantage : Bytes
  pub block_id : Bytes
  pub block_height : ℕ
  pub pool_id : Bytes
  pub eligible : Bool
  pub arrived : Bool
  pub offset_ms : F
  pub empty_first : Bool
  pub connect_ms : F
  pub tls : Bool
  pub error_category : Bytes
  pub coinbase_analyzed : Bool
  pub worker_wallet_in_coinbase : Bool
  pub coinbase_total_sats : ℕ
  pub worker_payout_sats : ℕ
  pub coinbase_outputs : List CoinbaseOutput
  pub coinbase_output_count : ℤ
  pub coinbase_outputs_truncated : Bool
  pub coinbase_omitted_sats : ℕ
  pub estimated_pool_fee_pct : Option F
  pub run_started_at : Option Time
  pub run_status : Bytes
  pub configured_endpoints : ℤ
  pub successful_sessions : ℤ
  pub accepted_blocks : ℤ
  pub uploaded_observations : ℤ
  pub dropped_observations : ℤ
  pub endpoint_samples : List (EndpointBlockSample F)
  pub eligible_endpoints : List EndpointIdentity

-- The zero value of the Go type, at a given zero of `float64`.
abbrev pub zero_observation : {F : Type 0} → F → Observation F
zero_observation z = record {
  version = pos 0;
  observation_id = [];
  source = [];
  run_id = [];
  machine_id = [];
  agent_version = [];
  config_revision = [];
  record_type = [];
  endpoint = [];
  protocol_method = [];
  duration_ms = none;
  response_status = [];
  observed_at = 0;
  vantage = [];
  block_id = [];
  block_height = 0;
  pool_id = [];
  eligible = false;
  arrived = false;
  offset_ms = z;
  empty_first = false;
  connect_ms = z;
  tls = false;
  error_category = [];
  coinbase_analyzed = false;
  worker_wallet_in_coinbase = false;
  coinbase_total_sats = 0;
  worker_payout_sats = 0;
  coinbase_outputs = [];
  coinbase_output_count = pos 0;
  coinbase_outputs_truncated = false;
  coinbase_omitted_sats = 0;
  estimated_pool_fee_pct = none;
  run_started_at = none;
  run_status = [];
  configured_endpoints = pos 0;
  successful_sessions = pos 0;
  accepted_blocks = pos 0;
  uploaded_observations = pos 0;
  dropped_observations = pos 0;
  endpoint_samples = [];
  eligible_endpoints = [];
}

-- internal/model/protocol.go
abbrev pub source_remote_scheduled : Bytes
source_remote_scheduled = bytes "fly-scheduled"

abbrev pub record_type_protocol : Bytes
record_type_protocol = bytes "protocol"

abbrev pub record_type_probe_run : Bytes
record_type_probe_run = bytes "probe_run"

abbrev pub record_type_block_sample : Bytes
record_type_block_sample = bytes "block_sample"

abbrev pub protocol_connect : Bytes
protocol_connect = bytes "tcp.connect"

abbrev pub protocol_tls_handshake : Bytes
protocol_tls_handshake = bytes "tls.handshake"

abbrev pub protocol_subscribe : Bytes
protocol_subscribe = bytes "mining.subscribe"

abbrev pub protocol_authorize : Bytes
protocol_authorize = bytes "mining.authorize"

abbrev pub protocol_status_ok : Bytes
protocol_status_ok = bytes "ok"

abbrev pub protocol_status_rejected : Bytes
protocol_status_rejected = bytes "rejected"

abbrev pub protocol_status_unsupported : Bytes
protocol_status_unsupported = bytes "unsupported"

abbrev pub protocol_status_timeout : Bytes
protocol_status_timeout = bytes "timeout"

abbrev pub protocol_status_error : Bytes
protocol_status_error = bytes "error"
