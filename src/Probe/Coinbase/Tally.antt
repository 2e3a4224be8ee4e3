-- ===== src/Probe/Coinbase/Tally.antt =====
-- The loop over the outputs keeps the accounts: what it has counted is paid to the worker or stands
-- in a destination, and the two guards against overflow behind the first are never met.
use stratum_stats.Base.{
  ℕ, ◌+◌, ◌-◌, ◌≤◌, ◌≡◌, refl, true, false, Bytes, List, [], ◌∷◌, Option, none, some, sum_by, leb,
  leb→le, ltb, ◌==◌, find, insert, bytes_eq, Post, arith, Bool-cases, inl, inr,
}
use stratum_stats.Model.{CoinbaseOutput}
use stratum_stats.Probe.Reader.{CoinbaseError, worker_overflow, destination_overflow}
use stratum_stats.Probe.Coinbase.Defs.{
  Tally, max_uint64, add_destination, is_worker, settle, fresh_output, fresh_value, empty_tally,
}

abbrev pub destination_sum : List (Bytes × CoinbaseOutput) → ℕ
destination_sum = sum_by (λ d. d.1.value_sats)

-- The accounts of the loop, before the value `pending` is settled.
pub record Balances (pending : ℕ) (t : Tally) : Type 0 where
  pub balance : t.total_sats ≡ t.worker_sats + destination_sum t.destinations + pending
  pub fits : t.total_sats ≤ max_uint64

-- The errors that the guards of the worker's and the destinations' sums would return.
abbrev pub IsOther : CoinbaseError → Type 0
IsOther worker_overflow = ⊥
IsOther destination_overflow = ⊥
IsOther _ = Unit

sum-insert-none :
    (k : Bytes) (o : CoinbaseOutput) (m : List (Bytes × CoinbaseOutput))
    → find k m ≡ none
    → destination_sum (insert k o m) ≡ destination_sum m + o.value_sats
sum-insert-none k o [] h = omega arith
sum-insert-none k o ((j, w) ∷ m) h = ground (arith, sum-insert-none k o m)

sum-insert-some :
    (k : Bytes) (o old : CoinbaseOutput) (m : List (Bytes × CoinbaseOutput))
    → find k m ≡ some old
    → destination_sum (insert k o m) + old.value_sats ≡ destination_sum m + o.value_sats
sum-insert-some k o old [] h = cc
sum-insert-some k o old ((j, w) ∷ m) h = ground (arith, sum-insert-some k o old m)

le-destination_sum :
    (k : Bytes) (old : CoinbaseOutput) (m : List (Bytes × CoinbaseOutput))
    → find k m ≡ some old
    → old.value_sats ≤ destination_sum m
le-destination_sum k old [] h = cc
le-destination_sum k old ((j, w) ∷ m) h = ground (arith, le-destination_sum k old m)

add_destination-Balances :
    (script : Bytes) (value : ℕ) (fresh : CoinbaseOutput) (t : Tally)
    (found : Option CoinbaseOutput)
    → find script t.destinations ≡ found
    → fresh.value_sats ≡ value
    → Balances value t
    → Post (Balances 0) IsOther (add_destination script value fresh t found)
unfolding add_destination
add_destination-Balances script value fresh t none e h b = record {
  balance = omega (arith, sum-insert-none script fresh t.destinations e, b.balance, h);
  fits = b.fits;
}
add_destination-Balances script value fresh t (some old) e h b =
    let room = le-destination_sum script old t.destinations e in
    let test : ltb (max_uint64 - old.value_sats) value ≡ false =
      ground (arith, room, b.balance, b.fits) in
    let grown = record old { value_sats = old.value_sats + value } in
    rw test (record {
      balance = omega (arith, sum-insert-some script grown old t.destinations e, b.balance);
      fits = b.fits;
    })

module _ (sha256 : Bytes → Bytes) (worker_script worker_hash : Bytes) where
  -- From balanced accounts `settle` succeeds and balances them, whatever the value and the script.
  pub settle-Balances :
      (value : ℕ) (script : Bytes) (t : Tally)
      → Balances value t
      → Post (Balances 0) IsOther (settle sha256 worker_script worker_hash value script t)
  unfolding settle
  settle-Balances value script t b =
      elim (Bool-cases (is_worker sha256 worker_script worker_hash value script)) [
        | inl w ↦
            let test : ltb (max_uint64 - t.worker_sats) value ≡ false =
              ground (arith, b.balance, b.fits) in
            rw (w, test) (record { balance = omega (arith, b.balance); fits = b.fits })
        | inr w ↦ elim (Bool-cases (value == 0)) [
          | inl z ↦ rw (w, z) (record { balance = ground (arith, b.balance); fits = b.fits })
          | inr z ↦
              rw (w, z)
                (add_destination-Balances script value
                  (fresh_output sha256 worker_script worker_hash value script) t
                  (find script t.destinations) refl
                  (fresh_value sha256 worker_script worker_hash value script) b)
        ]
      ]

pub open-Balances :
    (t : Tally) (value : ℕ)
    → Balances 0 t
    → leb value (max_uint64 - t.total_sats) ≡ true
    → Balances value (record t { total_sats = t.total_sats + value })
open-Balances t value b h = record {
  balance = omega (arith, b.balance);
  fits = omega (arith, b.fits, leb→le value (max_uint64 - t.total_sats) h);
}

pub Balances-empty : Balances 0 empty_tally
Balances-empty = omega arith
