-- ===== src/Examples/Windows.antt =====
-- Jobs, events and sessions of a connection, and the theorems on them.
use mathlib.Core.List.{Memᴰ}
use stratum_stats.Base.{
  ℕ, map, some, ◌≤◌, ◌≡◌, refl, true, false, bytes, [], ◌∷◌, Permᴰ, All, find, bytes_eq, arith, inl,
  inr, none, replicate,
}
use stratum_stats.Model.{Time}
use stratum_stats.Probe.Window.{NotifyWindow, accept, Notification, new_window, accepted}
use stratum_stats.Probe.Window.Once.{
  transaction_jobs, transaction_jobs-accepted, accepted-first_block,
}
use stratum_stats.Probe.Block.{
  Event, ActiveBlock, EndpointTarget, earliest, finish, observe, sort_strings, zero_event,
}
use stratum_stats.Probe.Block.Earliest.{
  record_all, first_arrival, find-record_all, find-record_all_perm, finish-IsLeast, timing,
  timing_from, ids_of,
}
use stratum_stats.Probe.Retry.{watch, failure, pauses_from, watching, watch-failures}
use stratum_stats.Examples.Samples.{naturals}

abbrev job : Notification
job = record { previous_hash = bytes "aa"; clean = true; has_transactions = true }

abbrev next_job : Notification
next_job = record job { previous_hash = bytes "bb" }

-- a window that job has opened, before anything was let through
abbrev open_window : NotifyWindow
open_window = record { previous = bytes "aa"; active = true; transaction_job_sent = false }

stray_job : accepted open_window (job ∷ record next_job { clean = false } ∷ job ∷ []) ≡ job ∷ []
unfolding accepted accept
stray_job = refl

transaction_jobs-accepted_example :
    transaction_jobs
      (bytes "aa")
      (accepted open_window (job ∷ record next_job { clean = false } ∷ job ∷ []))
    ≤ 1
transaction_jobs-accepted_example =
    transaction_jobs-accepted (bytes "aa") open_window
      (job ∷ record next_job { clean = false } ∷ job ∷ []) refl
      (inr refl, (inl refl, (inr refl, tt)))

accepted-first_block_example :
    accepted new_window (job ∷ job ∷ record next_job { clean = false } ∷ []) ≡ []
accepted-first_block_example =
    accepted-first_block job (job ∷ record next_job { clean = false } ∷ []) refl
      (inr refl, (inl refl, tt))

abbrev late : Event ℕ
late = record (zero_event naturals) {
  connection_id = bytes "a";
  at = 9;
  verified = true;
  has_transactions = true;
}

abbrev early : Event ℕ
early = record late { at = 4 }

abbrev window : ActiveBlock ℕ
window = record {
  id = bytes "aa";
  started = 4;
  eligible = [];
  arrivals = [];
  empty = [];
  invalid = [];
  payout = [];
}

find-record_all_example :
    find (bytes "a") (record_all window (late ∷ early ∷ [])).arrivals
    ≡ first_arrival (bytes "a") none (late ∷ early ∷ [])
find-record_all_example = find-record_all (bytes "a") window (late ∷ early ∷ [])

find-record_all_perm_example :
    find (bytes "a") (record_all window (late ∷ early ∷ [])).arrivals
    ≡ find (bytes "a") (record_all window (early ∷ late ∷ [])).arrivals
find-record_all_perm_example =
    find-record_all_perm (bytes "a") window (late ∷ early ∷ []) (early ∷ late ∷ [])
      (Permᴰ.swap refl refl)

-- two arrivals, four microseconds apart, and an endpoint that is still missing
abbrev arrived_block : ActiveBlock ℕ
arrived_block =
    let target : EndpointTarget = record {
      pool_id = bytes "p";
      address = bytes "x";
      tls = false;
    } in
    record window {
      eligible = (bytes "b", target) ∷ (bytes "c", target) ∷ (bytes "a", target) ∷ [];
      arrivals = (bytes "a", 9000) ∷ (bytes "b", 5000) ∷ [];
    }

finished :
    finish naturals (bytes "us") arrived_block
    ≡ some (
        map
          (observe naturals (bytes "us") 5000 arrived_block)
          (bytes "a" ∷ bytes "b" ∷ bytes "c" ∷ []))
unfolding finish earliest sort_strings
finished = refl

finish-IsLeast_example :
    (first : Time) × Memᴰ first (9000 ∷ 5000 ∷ [])
    × All (λ t. first ≤ t) (9000 ∷ 5000 ∷ [])
    × (map (timing naturals) (
          map
            (observe naturals (bytes "us") 5000 arrived_block)
            (bytes "a" ∷ bytes "b" ∷ bytes "c" ∷ []))
        ≡ map
            (λ id. timing_from naturals first (find id arrived_block.arrivals))
            (sort_strings (ids_of arrived_block)))
finish-IsLeast_example =
    finish-IsLeast naturals (bytes "us") arrived_block
      (map (observe naturals (bytes "us") 5000 arrived_block)
        (bytes "a" ∷ bytes "b" ∷ bytes "c" ∷ []))
      (ground arith, (ground arith, tt)) finished

watch-failures_example : watch (replicate 8 failure) ≡ (pauses_from 0 8, watching)
watch-failures_example = watch-failures 8
