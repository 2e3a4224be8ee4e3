-- ===== src/Model/Redact.antt =====
-- internal/model/observation_json.go: what `MarshalJSON` removes before a record is written, and the fields of old
-- versions from which `UnmarshalJSON` fills in a record that is read.
use stratum_stats.Base.{not, Bytes, List, keep, Option, none, some, map, is_empty, if◌then◌else◌}
use stratum_stats.Model.{CoinbaseOutput, CoinbaseEvidence, EndpointBlockSample, Observation}

-- The loop of both methods. A list that is empty stays as it is, which is the same list.
unfoldable pub redacted_outputs : List CoinbaseOutput → List CoinbaseOutput
redacted_outputs = keep (λ output. not output.worker)

-- CoinbaseEvidence.MarshalJSON, up to the encoding
unfoldable pub redact_evidence : {F : Type 0} → CoinbaseEvidence F → CoinbaseEvidence F
unfolding redacted_outputs
redact_evidence e = record e { coinbase_outputs = redacted_outputs e.coinbase_outputs }

-- Observation.MarshalJSON, up to the encoding
unfoldable pub redact_observation : {F : Type 0} → Observation F → Observation F
unfolding redacted_outputs
redact_observation o = record o { coinbase_outputs = redacted_outputs o.coinbase_outputs }

abbrev pub redact_option : {F : Type 0} → Option (CoinbaseEvidence F) → Option (CoinbaseEvidence F)
redact_option none = none
redact_option (some e) = some (redact_evidence e)

-- The record that is written: the encoder calls the method of the evidence in each sample too.
unfoldable pub stored_observation : {F : Type 0} → Observation F → Observation F
unfolding redact_observation
stored_observation o = record (redact_observation o) {
  endpoint_samples =
      map (λ (s : EndpointBlockSample _). record s { coinbase = redact_option s.coinbase })
        o.endpoint_samples;
}

-- `aux` of UnmarshalJSON, as encoding/json fills it: the record, and the two fields with names of old versions
pub record ObservationText (F : Type 0) : Type 0 where
  pub observation : Observation F
  pub legacy_block_id : Bytes
  pub legacy_fee_pct : Option F

abbrev pub or_else : {F : Type 0} → Option F → Option F → Option F
or_else none y = y
or_else (some x) y = some x

-- Observation.UnmarshalJSON, behind the decoding
unfoldable pub fill_legacy : {F : Type 0} → ObservationText F → Observation F
fill_legacy aux =
    let o = aux.observation in
    record o {
      block_id = if is_empty o.block_id then aux.legacy_block_id else o.block_id;
      estimated_pool_fee_pct = or_else o.estimated_pool_fee_pct aux.legacy_fee_pct;
    }
