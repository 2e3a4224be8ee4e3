-- ===== src/Probe/Block.antt =====
-- The block windows of internal/probe/collector.go: the state that `Collect` keeps for a block, the
-- events that change it, and the observations that a finished window emits.
pub mod Earliest
use stratum_stats.Base.{
  ℕ, ◌+◌, ◌-◌, ◌/◌, Bool, true, false, ◌&&◌, ◌||◌, not, Bytes, bytes, eqb, lexb, is_empty, List, [],
  ◌∷◌, ◌++◌, Option, none, some, map, length, ltb, ◌==◌, if◌then◌else◌, Float, find, insert,
  bytes_eq, pos,
}
use stratum_stats.Model.{
  Time, CoinbaseOutput, Observation, zero_observation, observation_version, EndpointIdentity,
}

-- `event`, where it is about a job
pub record Event (F : Type 0) : Type 0 where
  pub pool_id : Bytes
  pub prev_hash : Bytes
  pub connection_id : Bytes
  pub at : Time
  pub has_transactions : Bool
  pub tls : Bool
  pub verified : Bool
  pub coinbase_analyzed : Bool
  pub block_height : ℕ
  pub worker_wallet_seen : Bool
  pub coinbase_total_sats : ℕ
  pub worker_payout_sats : ℕ
  pub coinbase_outputs : List CoinbaseOutput
  pub coinbase_output_count : ℕ
  pub coinbase_outputs_truncated : Bool
  pub coinbase_omitted_sats : ℕ
  pub estimated_pool_fee_pct : Option F

pub record EndpointTarget : Type 0 where
  pub pool_id : Bytes
  pub address : Bytes
  pub tls : Bool

-- `activeBlock`; a map into `bool` with only `true` in it is a set of its keys. Its field `tls` is
-- written and never read, and is left out.
pub record ActiveBlock (F : Type 0) : Type 0 where
  pub id : Bytes
  pub started : Time
  pub eligible : List (Bytes × EndpointTarget)
  pub arrivals : List (Bytes × Time)
  pub empty : List (Bytes × Bool)
  pub invalid : List (Bytes × Bool)
  pub payout : List (Bytes × Event F)

-- endpointConnectionID
unfoldable pub endpoint_connection_id : Bytes → Bytes → Bool → Bytes
endpoint_connection_id pool_id address tls =
    pool_id ++ (47 ∷ address) ++ bytes "/tls=" ++ (if tls then bytes "true" else bytes "false")

-- `!exists || at.Before(old)`
abbrev pub is_earlier : Time → Option Time → Bool
is_earlier at none = true
is_earlier at (some old) = ltb at old

module _ {F : Type 0} where
  -- the key of an event
  unfoldable pub event_id : Event F → Bytes
  event_id e = if is_empty e.connection_id then e.pool_id else e.connection_id

  -- recordBlockEvent
  unfoldable pub record_block_event : ActiveBlock F → Event F → ActiveBlock F
  record_block_event block e =
      let b =
        if e.has_transactions
        then block
        else record block { empty = insert (event_id e) true block.empty } in
      if not e.verified
      then record b { invalid = insert (event_id e) true b.invalid }
      else if is_earlier e.at (find (event_id e) b.arrivals)
      then record b {
        arrivals = insert (event_id e) e.at b.arrivals;
        payout = insert (event_id e) e b.payout;
      }
      else b

  -- activeBlockForEvent: the blocks, and the block of the event where it has one
  unfoldable pub active_block_for_event :
      List (Bytes × ActiveBlock F)
      → List (Bytes × Bool)
      → List (Bytes × EndpointTarget)
      → Event F
      → List (Bytes × ActiveBlock F) × Option (ActiveBlock F)
  active_block_for_event blocks completed configured e = elim (find e.prev_hash completed) [
    | some true ↦ (blocks, none)
    | _ ↦ elim (find e.prev_hash blocks) [
      | some block ↦ (blocks, some block)
      | none ↦
          let block : ActiveBlock F = record {
            id = e.prev_hash;
            started = e.at;
            eligible = configured;
            arrivals = [];
            empty = [];
            invalid = [];
            payout = [];
          } in
          (insert e.prev_hash block blocks, some block)
    ]
  ]

  -- the case of a job's event in the loop of `Collect`; the block is changed in the map
  unfoldable pub collect_event :
      List (Bytes × ActiveBlock F)
      → List (Bytes × Bool)
      → List (Bytes × EndpointTarget)
      → Event F
      → List (Bytes × ActiveBlock F)
  collect_event blocks completed configured e =
      let (blocks', found) = active_block_for_event blocks completed configured e in
      elim found [
        | none ↦ blocks'
        | some block ↦ insert e.prev_hash (record_block_event block e) blocks'
      ]

-- `if first.IsZero() || at.Before(first)` over the arrivals
unfoldable pub earliest : Time → List Time → Time
earliest first [] = first
earliest first (at ∷ rest) = earliest (if (first == 0) || ltb at first then at else first) rest

insert_sorted : Bytes → List Bytes → List Bytes
insert_sorted x [] = x ∷ []
insert_sorted x (y ∷ ys) = if lexb y x then y ∷ insert_sorted x ys else x ∷ y ∷ ys

-- sort.Strings
unfoldable pub sort_strings : List Bytes → List Bytes
unfolding insert_sorted
sort_strings [] = []
sort_strings (x ∷ xs) = insert_sorted x (sort_strings xs)

abbrev is_set : Option Bool → Bool
is_set (some b) = b
is_set none = false

module _ (fl : Float) where
  open fl use {F, of_ℕ, div}

  abbrev pub zero_event : Event F
  zero_event = record {
    pool_id = [];
    prev_hash = [];
    connection_id = [];
    at = 0;
    has_transactions = false;
    tls = false;
    verified = false;
    coinbase_analyzed = false;
    block_height = 0;
    worker_wallet_seen = false;
    coinbase_total_sats = 0;
    worker_payout_sats = 0;
    coinbase_outputs = [];
    coinbase_output_count = 0;
    coinbase_outputs_truncated = false;
    coinbase_omitted_sats = 0;
    estimated_pool_fee_pct = none;
  }

  -- The zero value stands for a key that the map does not have.
  abbrev payout_of : Option (Event F) → Event F
  payout_of (some e) = e
  payout_of none = zero_event

  abbrev target_of : Option EndpointTarget → EndpointTarget
  target_of (some t) = t
  target_of none = record { pool_id = []; address = []; tls = false }

  -- float64(at.Sub(first).Microseconds()) / 1000
  unfoldable pub offset_of : Time → Time → F
  offset_of first at = div (of_ℕ ((at - first) / 1000)) (of_ℕ 1000)

  -- the observation of one endpoint
  unfoldable pub observe : Bytes → Time → ActiveBlock F → Bytes → Observation F
  unfolding offset_of
  observe vantage first r id =
      let target = target_of (find id r.eligible) in
      let payout = payout_of (find id r.payout) in
      let base : Observation F = record (zero_observation (of_ℕ 0)) {
        version = observation_version;
        observed_at = r.started;
        vantage = vantage;
        block_id = r.id;
        block_height = payout.block_height;
        pool_id = target.pool_id;
        endpoint = target.address;
        eligible = true;
        empty_first = is_set (find id r.empty);
        tls = target.tls;
        coinbase_analyzed = payout.coinbase_analyzed;
        worker_wallet_in_coinbase = payout.worker_wallet_seen;
        coinbase_total_sats = payout.coinbase_total_sats;
        worker_payout_sats = payout.worker_payout_sats;
        coinbase_outputs = payout.coinbase_outputs;
        coinbase_output_count = pos payout.coinbase_output_count;
        coinbase_outputs_truncated = payout.coinbase_outputs_truncated;
        coinbase_omitted_sats = payout.coinbase_omitted_sats;
        estimated_pool_fee_pct = payout.estimated_pool_fee_pct;
        error_category = if is_set (find id r.invalid) then bytes "invalid_job" else [];
      } in
      elim (find id r.arrivals) [
        | none ↦ base
        | some at ↦ record base { arrived = true; offset_ms = offset_of first at }
      ]

  -- the closure `finish`: nothing is emitted for fewer than two arrivals
  unfoldable pub finish : Bytes → ActiveBlock F → Option (List (Observation F))
  unfolding observe earliest sort_strings
  finish vantage r =
      if ltb (length r.arrivals) 2
      then none
      else some (
          map (observe vantage (earliest 0 (map (λ (a : Bytes × Time). a.1) r.arrivals)) r)
            (sort_strings (map (λ (t : Bytes × EndpointTarget). t.0) r.eligible)))
