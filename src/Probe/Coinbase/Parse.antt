-- ===== src/Probe/Coinbase/Parse.antt =====
-- What holds of every result of the parser, given an invariant of the loop over the outputs.
use stratum_stats.Base.{
  ℕ, zero, suc, ◌+◌, ◌-◌, ◌≡◌, refl, Bool, true, false, ◌&&◌, not, Bytes, List, [], ◌∷◌, map,
  length, leb, ◌==◌, if◌then◌else◌, ok, Post, Post-bind, Post-guard, arith,
}
use stratum_stats.Model.{CoinbaseOutput}
use stratum_stats.Probe.Reader.{
  CoinbaseError, take_bytes, little_endian, input_count_implausible, input_script_too_large,
  output_count_implausible, value_overflow, output_script_too_large, witness_count_implausible,
  witness_item_too_large, trailing_bytes,
}
use stratum_stats.Probe.CompactSize.{read_compact_size}
use stratum_stats.Probe.Coinbase.Defs.{
  CoinbaseSummary, Tally, max_uint64, empty_tally, read_sized, read_inputs, read_items,
  read_witnesses, settle, read_outputs, summarize, analyze_coinbase, finish_coinbase, witness_flag,
  height_after,
}
use stratum_stats.Probe.Script.{decode_coinbase_height}
use stratum_stats.Probe.Coinbase.Tally.{IsOther}

abbrev Any : {A : Type 0} → A → Type 0
Any a = Unit

take_bytes-IsOther : (n : ℕ) (r : Bytes) → Post Any IsOther (take_bytes n r)
unfolding take_bytes
take_bytes-IsOther n r = ground arith

read_compact_size-IsOther : (r : Bytes) → Post Any IsOther (read_compact_size r)
unfolding read_compact_size
read_compact_size-IsOther [] = tt
read_compact_size-IsOther (p ∷ r) = ground arith

read_sized-IsOther :
    (whole : ℕ) (e : CoinbaseError) (r : Bytes)
    → IsOther e
    → Post Any IsOther (read_sized whole e r)
unfolding read_sized
read_sized-IsOther whole e r h =
    Post-bind Any Any IsOther (read_compact_size r) _ (read_compact_size-IsOther r)
      λ (size, r') _. Post-guard Any IsOther (leb size whole) e _ h λ _. take_bytes-IsOther size r'

read_items-IsOther : (whole n : ℕ) (r : Bytes) → Post Any IsOther (read_items whole n r)
unfolding read_items
read_items-IsOther whole zero r = tt
read_items-IsOther whole (suc n) r =
    Post-bind Any Any IsOther (read_sized whole witness_item_too_large r) _
      (read_sized-IsOther whole witness_item_too_large r tt)
      λ (item, r') _. read_items-IsOther whole n r'

read_witnesses-IsOther : (whole n : ℕ) (r : Bytes) → Post Any IsOther (read_witnesses whole n r)
unfolding read_witnesses
read_witnesses-IsOther whole zero r = tt
read_witnesses-IsOther whole (suc n) r =
    Post-bind Any Any IsOther (read_compact_size r) _ (read_compact_size-IsOther r) λ (items, r1) _.
      Post-guard Any IsOther (leb items 1000) witness_count_implausible _ tt λ _.
        Post-bind Any Any IsOther (read_items whole items r1) _ (read_items-IsOther whole items r1)
          λ (done, r2) _. read_witnesses-IsOther whole n r2

read_inputs-IsOther :
    (whole n : ℕ) (first : Bool) (height : ℕ) (r : Bytes)
    → Post Any IsOther (read_inputs whole n first height r)
unfolding read_inputs
read_inputs-IsOther whole zero first height r = tt
read_inputs-IsOther whole (suc n) first height r =
    Post-bind Any Any IsOther (take_bytes 36 r) _ (take_bytes-IsOther 36 r) λ (outpoint, r1) _.
      Post-bind Any Any IsOther (read_sized whole input_script_too_large r1) _
        (read_sized-IsOther whole input_script_too_large r1 tt)
        λ (script, r2) _.
          Post-bind Any Any IsOther (take_bytes 4 r2) _ (take_bytes-IsOther 4 r2)
            λ (sequence, r3) _.
              read_inputs-IsOther whole n false
                (if first then height_after height (decode_coinbase_height script) else height) r3

-- How a result comes about: from a tally that satisfies the invariant.
abbrev pub Summarizes :
    (ℕ → Tally → Type 0) → (List CoinbaseOutput → List CoinbaseOutput) → CoinbaseSummary → Type 0
Summarizes I visit s =
    (height count : ℕ) × (t : Tally) × I 0 t
    × (s
        ≡ summarize height count t
            (visit (map (λ (d : Bytes × CoinbaseOutput). d.1) t.destinations)))

module _ (sha256 : Bytes → Bytes) (worker_script worker_hash : Bytes) where
  -- `I pending t` holds of the tally `t` whose total counts a value `pending` that is not settled.
  module _ (I : ℕ → Tally → Type 0)
      (opens : (t : Tally) (value : ℕ)
        → I 0 t
        → leb value (max_uint64 - t.total_sats) ≡ true
        → I value (record t { total_sats = t.total_sats + value }))
      (settles : (value : ℕ) (script : Bytes) (t : Tally)
        → I value t
        → Post (I 0) IsOther (settle sha256 worker_script worker_hash value script t)) where
    pub read_outputs-Post :
        (whole n : ℕ) (t : Tally) (r : Bytes)
        → I 0 t
        → Post
            (λ (p : Tally × Bytes). I 0 p.0)
            IsOther
            (read_outputs sha256 worker_script worker_hash whole n t r)
    unfolding read_outputs
    read_outputs-Post whole zero t r h = h
    read_outputs-Post whole (suc n) t r h =
        Post-bind Any _ IsOther (take_bytes 8 r) _ (take_bytes-IsOther 8 r) λ (value_bytes, r1) _.
          Post-guard _ IsOther (leb (little_endian value_bytes) (max_uint64 - t.total_sats))
            value_overflow _ tt
            λ room.
              Post-bind Any _ IsOther (read_sized whole output_script_too_large r1) _
                (read_sized-IsOther whole output_script_too_large r1 tt)
                λ (script, r2) _.
                  Post-bind (I 0) _ IsOther
                    (settle sha256 worker_script worker_hash (little_endian value_bytes) script
                      (record t { total_sats = t.total_sats + little_endian value_bytes }))
                    _
                    (settles (little_endian value_bytes) script
                      (record t { total_sats = t.total_sats + little_endian value_bytes })
                      (opens t (little_endian value_bytes) h room))
                    λ t' h'. read_outputs-Post whole n t' r2 h'

    tail_Post :
        (visit : List CoinbaseOutput → List CoinbaseOutput) (whole inputs : ℕ) (witness : Bool)
        (height outputs : ℕ) (t : Tally)
        → I 0 t
        → (r5 : Bytes)
        → Post
            (Summarizes I visit)
            IsOther
            (finish_coinbase visit whole inputs witness height outputs t r5)
    unfolding finish_coinbase
    tail_Post visit whole inputs witness height outputs t held r5 =
        Post-bind Any (Summarizes I visit) IsOther
          (if witness then read_witnesses whole inputs r5 else ok (tt, r5)) _ (go witness)
          λ (done, r6) _.
            Post-bind Any (Summarizes I visit) IsOther (take_bytes 4 r6) _ (take_bytes-IsOther 4 r6)
              λ (lock, r7) _.
                Post-guard (Summarizes I visit) IsOther (length r7 == 0) trailing_bytes _ tt
                  λ _. (height, outputs, t, held, refl)
      where
        go :
            (w : Bool)
            → Post Any IsOther (if w then read_witnesses whole inputs r5 else ok (tt, r5))
        go true = read_witnesses-IsOther whole inputs r5
        go false = tt

    pub analyze_coinbase-Post :
        (visit : List CoinbaseOutput → List CoinbaseOutput) (raw : Bytes)
        → I 0 empty_tally
        → Post
            (Summarizes I visit)
            IsOther
            (analyze_coinbase sha256 worker_script worker_hash visit raw)
    unfolding analyze_coinbase
    analyze_coinbase-Post visit raw h =
        let Q = Summarizes I visit in
        Post-bind Any Q IsOther (take_bytes 4 raw) _ (take_bytes-IsOther 4 raw) λ (version, r1) _.
          Post-bind Any Q IsOther (read_compact_size (witness_flag r1).1) _
            (read_compact_size-IsOther (witness_flag r1).1)
            λ (inputs, r2) _.
              Post-guard Q IsOther (not (inputs == 0) && leb inputs 1000) input_count_implausible _
                tt
                λ _.
                  Post-bind Any Q IsOther (read_inputs (length raw) inputs true 0 r2) _
                    (read_inputs-IsOther (length raw) inputs true 0 r2)
                    λ (height, r3) _.
                      Post-bind Any Q IsOther (read_compact_size r3) _
                        (read_compact_size-IsOther r3)
                        λ (outputs, r4) _.
                          Post-guard Q IsOther (not (outputs == 0) && leb outputs 10000)
                            output_count_implausible _ tt
                            λ _.
                              Post-bind (λ (p : Tally × Bytes). I 0 p.0) Q IsOther
                                (read_outputs sha256 worker_script worker_hash (length raw) outputs
                                  empty_tally r4)
                                _ (read_outputs-Post (length raw) outputs empty_tally r4 h)
                                λ (t, r5) held.
                                  tail_Post visit (length raw) inputs (witness_flag r1).0 height
                                    outputs t held r5
