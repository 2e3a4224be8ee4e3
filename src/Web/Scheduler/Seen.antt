-- ===== src/Web/Scheduler/Seen.antt =====
-- Requests for a refresh are not lost, and one goroutine at a time serves them.
use stratum_stats.Base.{
  ℕ, zero, suc, ◌+◌, ◌%◌, ◌<◌, ◌≤◌, ◌≡◌, refl, ap, Bool, true, false, ◌==◌, List, [], ◌∷◌, ◌++◌,
  Option, none, some, if◌then◌else◌, length, arith, ◌∙◌, sym, Bool-cases, inl, inr, ◌⊎◌, ==_iff,
  All,
}
use stratum_stats.Web.Scheduler.{
  Runner, sleeping, refreshing, Scheduler, generations, request_refresh, runner_at, replace_at,
  start_refresh, end_refresh, RefreshEvent, requested, started, ended, Step, request, start, end,
  Run, begin, later,
}

-- The requests since a refresh was last started.
abbrev pub unseen : List RefreshEvent → ℕ
unseen [] = 0
unseen (requested ∷ events) = suc (unseen events)
unseen (started ∷ events) = 0
unseen (ended ∷ events) = unseen events

-- No goroutine, or one; the generation that it refreshes for lacks the requests that came since.
abbrev IsServed : Bool → List Runner → ℕ → ℕ → Type 0
IsServed running [] generation n = (running ≡ false) × (n % generations ≡ 0)
IsServed running (sleeping ∷ []) generation n = running ≡ true
IsServed running (refreshing g ∷ []) generation n =
    (running ≡ true) × (g < generations) × ((g + n) % generations ≡ generation)
IsServed running (r ∷ q ∷ rs) generation n = true ≡ false

request-IsServed :
    (running : Bool) (runners : List Runner) (generation n : ℕ)
    → IsServed running runners generation n
    → IsServed true
        (if running then runners else runners ++ (sleeping ∷ []))
        ((generation + 1) % generations)
        (suc n)
request-IsServed true [] generation n h = ground (arith, h.0)
request-IsServed false [] generation n h = refl
request-IsServed true (sleeping ∷ []) generation n h = refl
request-IsServed false (sleeping ∷ []) generation n h = ground (arith, h)
request-IsServed true (refreshing g ∷ []) generation n h = (refl, h.1, ground (arith, h.2))
request-IsServed false (refreshing g ∷ []) generation n h = ground (arith, h.0)
request-IsServed running (r ∷ q ∷ rs) generation n h = ground (arith, h)

start-IsServed :
    (running : Bool) (runners : List Runner) (generation n i : ℕ)
    → generation < generations
    → IsServed running runners generation n
    → runner_at i runners ≡ some sleeping
    → IsServed running (replace_at i (refreshing generation ∷ []) runners) generation 0
start-IsServed running [] generation n i bound h e = ground (arith, e)
start-IsServed running (sleeping ∷ []) generation n zero bound h e = (h, bound, ground arith)
start-IsServed running (sleeping ∷ []) generation n (suc i) bound h e = ground (arith, e)
start-IsServed running (refreshing g ∷ []) generation n zero bound h e = ground (arith, e)
start-IsServed running (refreshing g ∷ []) generation n (suc i) bound h e = ground (arith, e)
start-IsServed running (r ∷ q ∷ rs) generation n i bound h e = ground (arith, h)

abbrev generation_of : Option Runner → ℕ
generation_of none = 0
generation_of (some sleeping) = 0
generation_of (some (refreshing g)) = g

all_seen :
    (k n generation : ℕ)
    → k < generations
    → (k + n) % generations ≡ generation
    → k ≡ generation
    → n % generations ≡ 0
all_seen k n generation bound sum same = omega (arith, bound, sum, same)

end-IsServed :
    (running : Bool) (runners : List Runner) (generation n i g : ℕ)
    → IsServed running runners generation n
    → runner_at i runners ≡ some (refreshing g)
    → let same = generation == g in
      IsServed
        (if same then false else running)
        (if same then replace_at i [] runners else replace_at i (sleeping ∷ []) runners)
        generation
        n
end-IsServed running [] generation n i g h e = ground (arith, e)
end-IsServed running (sleeping ∷ []) generation n zero g h e = ground (arith, e)
end-IsServed running (sleeping ∷ []) generation n (suc i) g h e = ground (arith, e)
end-IsServed running (refreshing k ∷ []) generation n zero g h e =
    let same_runner : k ≡ g = ap generation_of e in
    elim (Bool-cases (generation == g)) [
      | inl same ↦
          rw same (
            refl,
            all_seen k n generation h.1 h.2 (same_runner ∙ sym ((==_iff generation g).0 same)),
          )
      | inr other ↦ rw other h.0
    ]
end-IsServed running (refreshing k ∷ []) generation n (suc i) g h e = ground (arith, e)
end-IsServed running (r ∷ q ∷ rs) generation n i g h e = ground (arith, h)

-- the generation is a 64-bit number, and the goroutines serve the requests
abbrev IsGood : List RefreshEvent → Scheduler → Type 0
IsGood events s =
    (s.generation < generations) × IsServed s.running s.runners s.generation (unseen events)

Step-IsGood :
    (events : List RefreshEvent) {e : RefreshEvent} {s t : Scheduler}
    → Step s e t
    → IsGood events s
    → IsGood (e ∷ events) t
unfolding request_refresh start_refresh end_refresh
Step-IsGood events {s = s} request h =
    (ground arith, request-IsServed s.running s.runners s.generation (unseen events) h.1)
Step-IsGood events {s = s} (start i at) h =
    (h.0, start-IsServed s.running s.runners s.generation (unseen events) i h.0 h.1 at)
Step-IsGood events {s = s} (end i g at) h =
    go (s.generation == g)
      (end-IsServed s.running s.runners s.generation (unseen events) i g h.1 at)
  where
    go :
        (b : Bool)
        → IsServed
            (if b then false else s.running)
            (if b then replace_at i [] s.runners else replace_at i (sleeping ∷ []) s.runners)
            s.generation
            (unseen events)
        → IsGood events (
            if b
            then record s { running = false; runners = replace_at i [] s.runners }
            else record s { runners = replace_at i (sleeping ∷ []) s.runners })
    go true served = (h.0, served)
    go false served = (h.0, served)

Run-IsGood : {events : List RefreshEvent} {s : Scheduler} → Run events s → IsGood events s
Run-IsGood begin = (ground arith, (refl, ground arith))
Run-IsGood (later {events = events} run step) = Step-IsGood events step (Run-IsGood run)

-- Whatever the order of requests, starts and ends: the scheduler is marked as running and has exactly one goroutine; or it
-- is not marked, has none, and every request was made before the last start of a refresh, but for a multiple of 2 ^ 64 that
-- came after it.
pub Run-unseen :
    {events : List RefreshEvent} {s : Scheduler}
    → Run events s
    → ((s.running ≡ true) × (length s.runners ≡ 1))
      ⊎ ((s.running ≡ false) × (s.runners ≡ []) × (unseen events % generations ≡ 0))
Run-unseen {events = events} {s = s} run =
    served s.running s.runners s.generation (unseen events) (Run-IsGood run).1
  where
    served :
        (running : Bool) (runners : List Runner) (generation n : ℕ)
        → IsServed running runners generation n
        → ((running ≡ true) × (length runners ≡ 1))
          ⊎ ((running ≡ false) × (runners ≡ []) × (n % generations ≡ 0))
    served running [] generation n h = inr (h.0, refl, h.1)
    served running (sleeping ∷ []) generation n h = inl (h, refl)
    served running (refreshing g ∷ []) generation n h = inl (h.0, refl)
    served running (r ∷ q ∷ rs) generation n h = ground (arith, h)

-- a step that a goroutine takes, not a request
abbrev pub IsOwn : RefreshEvent → Type 0
IsOwn requested = true ≡ false
IsOwn started = true ≡ true
IsOwn ended = true ≡ true

-- a run that a few steps of the goroutines prolong until none is left
abbrev Finishes : List RefreshEvent → ℕ → Type 0
Finishes events n =
    (more : List RefreshEvent) × (t : Scheduler) × Run (more ++ events) t
    × (t.running ≡ false)
    × (t.runners ≡ [])
    × All IsOwn more
    × (length more ≤ n)

sleeping-Finishes :
    {events : List RefreshEvent} {s : Scheduler}
    → Run events s
    → s.runners ≡ sleeping ∷ []
    → Finishes events 3
unfolding start_refresh end_refresh
sleeping-Finishes {s = s} run at = (
  ended ∷ started ∷ [],
  end_refresh 0 s.generation (start_refresh 0 s),
  later (later run (start 0 (rw at refl))) (end 0 s.generation (rw at refl)),
  rw ((==_iff s.generation s.generation).1 refl) refl,
  rw ((==_iff s.generation s.generation).1 refl, at) refl,
  (refl, (refl, tt)),
  ground arith,
)

refreshing-Finishes :
    {events : List RefreshEvent} {s : Scheduler} (g : ℕ)
    → Run events s
    → s.runners ≡ refreshing g ∷ []
    → Finishes events 3
unfolding start_refresh end_refresh
refreshing-Finishes {s = s} g run at = elim (Bool-cases (s.generation == g)) [
  | inl same ↦ (
    ended ∷ [],
    end_refresh 0 g s,
    later run (end 0 g (rw at refl)),
    rw same refl,
    rw (same, at) refl,
    (refl, tt),
    ground arith,
  )
  | inr other ↦
      let t = end_refresh 0 g s in
      let u = start_refresh 0 t in
      (
        ended ∷ started ∷ ended ∷ [],
        end_refresh 0 t.generation u,
        later (later (later run (end 0 g (rw at refl))) (start 0 (rw (other, at) refl)))
            (end 0 t.generation (rw (other, at) refl)),
        rw ((==_iff t.generation t.generation).1 refl) refl,
        rw ((==_iff t.generation t.generation).1 refl, other, at) refl,
        (refl, (refl, (refl, tt))),
        ground arith,
      )
]

Run-Finishes : {events : List RefreshEvent} {s : Scheduler} → Run events s → Finishes events 3
Run-Finishes {events = events} {s = s} run = go s.runners refl (Run-IsGood run).1
  where
    go :
        (runners : List Runner)
        → s.runners ≡ runners
        → IsServed s.running runners s.generation (unseen events)
        → Finishes events 3
    go [] at h = ([], s, run, h.0, at, tt, ground arith)
    go (sleeping ∷ []) at h = sleeping-Finishes run at
    go (refreshing g ∷ []) at h = refreshing-Finishes g run at
    go (r ∷ q ∷ rs) at h = ground (arith, h)

-- From every state at most three steps, each the start or the end of a refresh and none a request, lead to one where no
-- goroutine is left, the scheduler is not marked as running, and every request was seen, but for a multiple of 2 ^ 64 since
-- the last start.
pub Run-idle :
    {events : List RefreshEvent} {s : Scheduler}
    → Run events s
    → (more : List RefreshEvent) × (t : Scheduler) × Run (more ++ events) t
      × (t.running ≡ false)
      × (t.runners ≡ [])
      × All IsOwn more
      × (length more ≤ 3)
      × (unseen (more ++ events) % generations ≡ 0)
Run-idle {events = events} {s = s} run =
    let (more, t, longer, idle, gone, own, steps) = Run-Finishes run in
    (
      more,
      t,
      longer,
      idle,
      gone,
      own,
      steps,
      all_unseen (length t.runners) (unseen (more ++ events)) idle (ap length gone)
          (Run-unseen longer),
    )
  where
    all_unseen :
        {b : Bool} {runners : List Runner} (k n : ℕ)
        → b ≡ false
        → k ≡ 0
        → ((b ≡ true) × (k ≡ 1)) ⊎ ((b ≡ false) × (runners ≡ []) × (n % generations ≡ 0))
        → n % generations ≡ 0
    all_unseen k n idle gone (inl busy) = ground (arith, gone, busy.1)
    all_unseen k n idle gone (inr seen) = seen.2
