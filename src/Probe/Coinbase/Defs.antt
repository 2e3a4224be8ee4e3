-- ===== src/Probe/Coinbase/Defs.antt =====
-- The parser and its result.
use stratum_stats.Base.{
  ℕ, zero, suc, ◌+◌, ◌-◌, ◌^◌, ◌%◌, Bool, true, false, ◌&&◌, ◌||◌, not, Bytes, eqb, lexb, List, [],
  ◌∷◌, Option, none, some, take, drop, length, sum_by, leb, ltb, ◌==◌, if◌then◌else◌, Outcome, ok,
  err, guard, ◌>>=◌, ◌>>◌, find, insert, bytes_eq, map, ◌≡◌, refl,
}
use stratum_stats.Model.{CoinbaseOutput, max_retained_coinbase_outputs}
use stratum_stats.Probe.Reader.{
  CoinbaseError, Read, take_bytes, little_endian, input_count_implausible, input_script_too_large,
  output_count_implausible, value_overflow, output_script_too_large, worker_overflow,
  destination_overflow, witness_count_implausible, witness_item_too_large, trailing_bytes,
}
use stratum_stats.Probe.CompactSize.{read_compact_size}
use stratum_stats.Probe.Script.{decode_coinbase_height, retained_script_hex, describe_output_script}

abbrev pub max_uint64 : ℕ
max_uint64 = 2 ^ 64 - 1

-- coinbaseSummary
pub record CoinbaseSummary : Type 0 where
  pub block_height : ℕ
  pub total_sats : ℕ
  pub worker_sats : ℕ
  pub worker_wallet_seen : Bool
  pub outputs : List CoinbaseOutput
  pub output_count : ℕ
  pub outputs_truncated : Bool
  pub omitted_sats : ℕ

-- The part of the result that the loop over the outputs builds, with `destinations`.
pub record Tally : Type 0 where
  pub total_sats : ℕ
  pub worker_sats : ℕ
  pub worker_wallet_seen : Bool
  pub destinations : List (Bytes × CoinbaseOutput)

abbrev pub empty_tally : Tally
empty_tally = record {
  total_sats = 0;
  worker_sats = 0;
  worker_wallet_seen = false;
  destinations = [];
}

-- A count, and that many bytes, unless the count passes the length of the whole text.
unfoldable pub read_sized : ℕ → CoinbaseError → Read Bytes
unfolding take_bytes
read_sized whole too_large r = do
  (size, r') ← read_compact_size r
  guard (leb size whole) too_large
  take_bytes size r'

-- `result.BlockHeight` after the first input's script
unfoldable pub height_after : ℕ → Option ℕ → ℕ
height_after height none = height
height_after height (some candidate) = if ltb 0 candidate then candidate - 1 else height

unfoldable pub read_inputs : ℕ → ℕ → Bool → ℕ → Read ℕ
unfolding take_bytes read_sized height_after
read_inputs whole zero first height r = ok (height, r)
read_inputs whole (suc n) first height r = do
  (outpoint, r1) ← take_bytes 36 r
  (script, r2) ← read_sized whole input_script_too_large r1
  (sequence, r3) ← take_bytes 4 r2
  read_inputs whole n false
      (if first then height_after height (decode_coinbase_height script) else height) r3

unfoldable pub read_items : ℕ → ℕ → Read (Unit {0})
unfolding read_sized
read_items whole zero r = ok (tt, r)
read_items whole (suc n) r = do
  (item, r') ← read_sized whole witness_item_too_large r
  read_items whole n r'

unfoldable pub read_witnesses : ℕ → ℕ → Read (Unit {0})
unfolding read_items
read_witnesses whole zero r = ok (tt, r)
read_witnesses whole (suc n) r = do
  (items, r1) ← read_compact_size r
  guard (leb items 1000) witness_count_implausible
  (done, r2) ← read_items whole items r1
  read_witnesses whole n r2

-- the marker and the flag of a witness serialization, with what follows them
unfoldable pub witness_flag : Bytes → Bool × Bytes
witness_flag (m ∷ f ∷ r) = if (m == 0) && not (f == 0) then (true, r) else (false, m ∷ f ∷ r)
witness_flag (m ∷ []) = (false, m ∷ [])
witness_flag [] = (false, [])

-- `destinations[key]` with a value added, or a new entry
unfoldable pub add_destination :
    Bytes → ℕ → CoinbaseOutput → Tally → Option CoinbaseOutput → Outcome CoinbaseError Tally
add_destination script value fresh t (some output) =
    if ltb (max_uint64 - output.value_sats) value
    then err destination_overflow
    else ok (record t {
      destinations =
          insert script (record output { value_sats = output.value_sats + value }) t.destinations;
    })
add_destination script value fresh t none =
    ok (record t { destinations = insert script fresh t.destinations })

-- The order of `sort.SliceStable`: the larger value first, then the smaller script.
unfoldable pub output_before : CoinbaseOutput → CoinbaseOutput → Bool
output_before left right =
    if not (left.value_sats == right.value_sats)
    then ltb right.value_sats left.value_sats
    else lexb left.script_pub_key right.script_pub_key

-- A stable sort by insertion: `x` goes before the elements that do not come before it.
unfoldable pub insert_output : CoinbaseOutput → List CoinbaseOutput → List CoinbaseOutput
insert_output x [] = x ∷ []
insert_output x (y ∷ ys) = if output_before y x then y ∷ insert_output x ys else x ∷ y ∷ ys

unfoldable pub sort_outputs : List CoinbaseOutput → List CoinbaseOutput
unfolding insert_output output_before
sort_outputs [] = []
sort_outputs (x ∷ xs) = insert_output x (sort_outputs xs)

-- The end of the function: at most 64 outputs are kept, and the rest is summed (in a uint64).
unfoldable pub summarize : ℕ → ℕ → Tally → List CoinbaseOutput → CoinbaseSummary
unfolding sort_outputs
summarize height count t visited =
    let sorted = sort_outputs visited in
    let too_many = ltb max_retained_coinbase_outputs (length sorted) in
    record {
      block_height = height;
      total_sats = t.total_sats;
      worker_sats = t.worker_sats;
      worker_wallet_seen = t.worker_wallet_seen;
      outputs = if too_many then take max_retained_coinbase_outputs sorted else sorted;
      output_count = count;
      outputs_truncated = too_many;
      omitted_sats =
          if too_many
          then sum_by (λ o. o.value_sats) (drop max_retained_coinbase_outputs sorted) % 2 ^ 64
          else 0;
    }

-- What follows the outputs: the witness items, the lock time and the end of the text.
unfoldable pub finish_coinbase :
    (List CoinbaseOutput → List CoinbaseOutput)
    → ℕ
    → ℕ
    → Bool
    → ℕ
    → ℕ
    → Tally
    → Bytes
    → Outcome CoinbaseError CoinbaseSummary
unfolding read_witnesses summarize take_bytes
finish_coinbase visit whole inputs witness height outputs t r5 = do
  (done, r6) ← (if witness then read_witnesses whole inputs r5 else ok (tt, r5))
  (lock, r7) ← take_bytes 4 r6
  guard (length r7 == 0) trailing_bytes
  ok (summarize height outputs t (visit (map (λ (d : Bytes × CoinbaseOutput). d.1) t.destinations)))

module _ (sha256 : Bytes → Bytes) (worker_script worker_hash : Bytes) where
  -- whether an output pays the worker
  unfoldable pub is_worker : ℕ → Bytes → Bool
  is_worker value script =
      (ltb 0 value && (ltb 0 (length worker_script) && eqb script worker_script))
      || (ltb 0 value && ((length worker_hash == 32) && eqb (sha256 script) worker_hash))

  unfoldable pub fresh_output : ℕ → Bytes → CoinbaseOutput
  fresh_output value script =
      let (script_hex, truncated) = retained_script_hex script in
      let (address, script_type) = describe_output_script sha256 script in
      record {
        value_sats = value;
        script_pub_key = script_hex;
        script_pub_key_truncated = truncated;
        address = address;
        script_type = script_type;
        worker = false;
      }

  pub fresh_value : (value : ℕ) (script : Bytes) → (fresh_output value script).value_sats ≡ value
  unfolding fresh_output
  fresh_value value script = refl

  -- One output, once its value and its script are read.
  unfoldable pub settle : ℕ → Bytes → Tally → Outcome CoinbaseError Tally
  unfolding add_destination
  settle value script t =
      if is_worker value script
      then (if ltb (max_uint64 - t.worker_sats) value
          then err worker_overflow
          else ok (record t { worker_wallet_seen = true; worker_sats = t.worker_sats + value }))
      else if value == 0
      then ok t
      else add_destination script value (fresh_output value script) t (find script t.destinations)

  unfoldable pub read_outputs : ℕ → ℕ → Tally → Read Tally
  unfolding take_bytes read_sized settle
  read_outputs whole zero t r = ok (t, r)
  read_outputs whole (suc n) t r = do
    (value_bytes, r1) ← take_bytes 8 r
    let value = little_endian value_bytes
    guard (leb value (max_uint64 - t.total_sats)) value_overflow
    (script, r2) ← read_sized whole output_script_too_large r1
    t' ← settle value script (record t { total_sats = t.total_sats + value })
    read_outputs whole n t' r2

  module _ (visit : List CoinbaseOutput → List CoinbaseOutput) where
    unfoldable pub analyze_coinbase : Bytes → Outcome CoinbaseError CoinbaseSummary
    unfolding witness_flag read_inputs read_outputs finish_coinbase
    analyze_coinbase raw = do
      let whole = length raw
      (version, r1) ← take_bytes 4 raw
      let flagged = witness_flag r1
      (inputs, r2) ← read_compact_size flagged.1
      guard (not (inputs == 0) && leb inputs 1000) input_count_implausible
      (height, r3) ← read_inputs whole inputs true 0 r2
      (outputs, r4) ← read_compact_size r3
      guard (not (outputs == 0) && leb outputs 10000) output_count_implausible
      (t, r5) ← read_outputs whole outputs empty_tally r4
      finish_coinbase visit whole inputs flagged.0 height outputs t r5
