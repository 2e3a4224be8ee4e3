-- ===== src/Store.antt =====
-- internal/store/jsonl.go: the observations on disk, one JSON text a line. A file is its bytes; the
-- scanner that splits it (bufio) and encoding/json are parameters, and which calls of the operating system
-- succeed is given by the environment.
pub mod Compaction
pub mod Replace
use stratum_stats.Base.{
  ℕ, zero, suc, eq_ℕ, ◌+◌, Bool, true, false, ◌&&◌, ◌||◌, not, Bytes, List, [], ◌∷◌, ◌++◌, Option,
  none, some, ltb, ◌==◌, if◌then◌else◌, Outcome, ok, err, ◌>>=◌,
}
use stratum_stats.Model.{Time, Observation}
use stratum_stats.Model.Redact.{ObservationText, fill_legacy, stored_observation}

pub data StoreError (D : Type 0) : Type 0 where
  decode_failed encode_failed : D → StoreError D
  scan_failed io_failed : StoreError D

-- What the package takes from the standard library. `scan` gives the tokens of a bufio.Scanner of lines
-- with the buffer of 2 MiB, and whether its `Err` is nil behind them; `decode` and `encode` are encoding/json
-- without the methods of the package model: `encode` gives the text of the fields of a record as they are, with
-- the newline that an Encoder adds.
pub record Codec (F D : Type 0) : Type 0 where
  pub scan : Bytes → List Bytes × Bool
  pub decode : Bytes → Outcome D (ObservationText F)
  pub encode : Observation F → Outcome D Bytes

-- Which calls of a run succeed.
pub record Calls : Type 0 where
  pub open_file : Bool
  pub stat : Bool
  pub create_temp : Bool
  pub chmod : Bool
  pub flush : Bool
  pub sync : Bool
  pub close : Bool
  pub rename : Bool
  pub open_directory : Bool
  pub sync_directory : Bool
  -- the deferred os.Remove, and what an incomplete temporary file holds
  pub remove : Bool
  pub partial : Bytes

-- The path and the temporary file beside it; `none` is a file that does not exist.
pub record Directory : Type 0 where
  pub file : Option Bytes
  pub temporary : Option Bytes

pub record CompactionResult : Type 0 where
  pub compacted : Bool
  pub removed : ℕ
  pub retained : ℕ

-- The deferred call of compact, whose error is discarded: the temporary file is removed, or stays with its text.
unfoldable pub discard : Calls → Directory → Bytes → Directory
discard calls d text = record d { temporary = if calls.remove then none else some text }

-- model.ObservationVersion
abbrev pub current_version : ℕ
current_version = 9

abbrev pub zero_result : CompactionResult
zero_result = record { compacted = false; removed = 0; retained = 0 }

module _ {F D : Type 0} (codec : Codec F D) where
  -- json.Unmarshal into an Observation, which calls its UnmarshalJSON
  unfoldable pub unmarshal_observation : Bytes → Outcome D (Observation F)
  unmarshal_observation text = codec.decode text >>= λ aux. ok (fill_legacy aux)

  -- Encoder.Encode of an Observation, which calls its MarshalJSON and those of the evidence in it
  unfoldable pub marshal_observation : Observation F → Outcome D Bytes
  marshal_observation o = codec.encode (stored_observation o)

  -- the two `continue`s of loadSinceReader
  unfoldable pub is_loaded : Time → Observation F → Bool
  is_loaded cutoff o =
      if not (eq_ℕ o.version current_version)
      then false
      else not (not (cutoff == 0) && ltb o.observed_at cutoff)

  -- the loop of loadSinceReader
  unfoldable pub load_lines : Time → List Bytes → Outcome (StoreError D) (List (Observation F))
  load_lines cutoff [] = ok []
  load_lines cutoff (line ∷ lines) = elim (unmarshal_observation line) [
    | err e ↦ err (decode_failed e)
    | ok o ↦ do rest ← load_lines cutoff lines; ok (if is_loaded cutoff o then o ∷ rest else rest)
  ]

  -- loadSinceReader; what it returns beside an error is not modelled, since no caller uses it
  unfoldable pub load_since_reader : Bytes → Time → Outcome (StoreError D) (List (Observation F))
  unfolding load_lines
  load_since_reader contents cutoff = do
    loaded ← load_lines cutoff (codec.scan contents).0
    if (codec.scan contents).1 then ok loaded else err scan_failed

  -- Appender.LoadSince, between two appends
  unfoldable pub load_since :
      Calls → Directory → Time → Outcome (StoreError D) (List (Observation F))
  unfolding load_since_reader
  load_since calls d cutoff = elim d.file [
    | none ↦ ok []
    | some contents ↦
        if calls.open_file && calls.stat then load_since_reader contents cutoff else err io_failed
  ]

  -- `!exists || observation.ObservedAt.Before(oldest)`
  abbrev older : Option Time → Time → Time
  older none at = at
  older (some oldest) at = if ltb at oldest then at else oldest

  unfoldable pub oldest_from : Option Time → List Bytes → Outcome (StoreError D) (Option Time)
  oldest_from oldest [] = ok oldest
  oldest_from oldest (line ∷ lines) = elim (unmarshal_observation line) [
    | err e ↦ err (decode_failed e)
    | ok o ↦ oldest_from (some (older oldest o.observed_at)) lines
  ]

  -- oldestObservation: `none` where there is no observation
  unfoldable pub oldest_observation : Calls → Directory → Outcome (StoreError D) (Option Time)
  unfolding oldest_from
  oldest_observation calls d = elim d.file [
    | none ↦ ok none
    | some contents ↦ if not calls.open_file then err io_failed else do
      oldest ← oldest_from none (codec.scan contents).0
      if (codec.scan contents).1 then ok oldest else err scan_failed
  ]

  -- the loop of compact: the counts, and the text that has been written or an error
  unfoldable pub compact_lines :
      Time → CompactionResult → Bytes → List Bytes → CompactionResult × Outcome (StoreError D) Bytes
  compact_lines cutoff result written [] = (result, ok written)
  compact_lines cutoff result written (line ∷ lines) = elim (unmarshal_observation line) [
    | err e ↦ (result, err (decode_failed e))
    | ok o ↦
        let dropped =
          compact_lines cutoff (record result { removed = result.removed + 1 }) written lines in
        if not (eq_ℕ o.version current_version) || ltb o.observed_at cutoff
        then dropped
        else elim (marshal_observation o) [
          | err e ↦ (result, err (encode_failed e))
          | ok text ↦
              compact_lines cutoff (record result { retained = result.retained + 1 })
                (written ++ text) lines
        ]
  ]

  -- compact, behind the loop: the temporary file is renamed, or left to the deferred call
  unfoldable pub replace :
      Calls
      → Directory
      → CompactionResult
      → Bool
      → Outcome (StoreError D) Bytes
      → Directory × CompactionResult × Option (StoreError D)
  replace calls d result scanned (err e) = (discard calls d calls.partial, result, some e)
  replace calls d result scanned (ok written) =
      if not scanned
      then (discard calls d calls.partial, result, some scan_failed)
      else if not calls.flush
      then (discard calls d calls.partial, result, some io_failed)
      else if not (calls.sync && (calls.close && calls.rename))
      then (discard calls d written, result, some io_failed)
      else (
        record { file = some written; temporary = none },
        record result { compacted = true },
        if calls.open_directory && calls.sync_directory then none else some io_failed,
      )

  unfoldable pub compact :
      Calls → Directory → Time → Directory × CompactionResult × Option (StoreError D)
  unfolding compact_lines replace
  compact calls d cutoff = elim d.file [
    | none ↦ (d, zero_result, some io_failed)
    | some contents ↦
        if not (calls.open_file && (calls.stat && calls.create_temp))
        then (d, zero_result, some io_failed)
        else if not calls.chmod
        then (discard calls d [], zero_result, some io_failed)
        else let (result, written) = compact_lines cutoff zero_result [] (codec.scan contents).0 in
          replace calls d result (codec.scan contents).1 written
  ]

  abbrev pub is_before : Option Time → Time → Bool
  is_before none trigger = false
  is_before (some oldest) trigger = ltb oldest trigger

  -- Appender.CompactBefore, under its mutex
  unfoldable pub compact_before :
      Calls → Directory → Time → Time → Directory × CompactionResult × Option (StoreError D)
  unfolding compact
  compact_before calls d retain_cutoff trigger_cutoff = elim (oldest_observation calls d) [
    | err e ↦ (d, zero_result, some e)
    | ok oldest ↦
        if is_before oldest trigger_cutoff
        then compact calls d retain_cutoff
        else (d, zero_result, none)
  ]
