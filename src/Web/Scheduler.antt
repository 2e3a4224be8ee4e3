-- ===== src/Web/Scheduler.antt =====
-- dashboardRefreshScheduler of internal/web/dashboard_response.go: requests for a refresh arrive while a goroutine sleeps
-- or refreshes. A step is what happens while the mutex is held.
pub mod Seen
use stratum_stats.Base.{
  ℕ, zero, suc, ◌+◌, ◌%◌, ◌≡◌, Bool, true, false, ◌==◌, List, [], ◌∷◌, ◌++◌, Option, none, some,
  if◌then◌else◌,
}

-- what a goroutine of `run` is doing: its sleep, or a refresh for the generation that it read before
pub data Runner : Type 0 where
  sleeping : Runner
  refreshing : ℕ → Runner

-- the fields that the mutex guards, and the goroutines that have been started and have not returned
pub record Scheduler : Type 0 where
  pub running : Bool
  pub generation : ℕ
  pub runners : List Runner

-- 2 ^ 64, at which the generation wraps
abbrev pub generations : ℕ
generations = 18446744073709551616

abbrev pub new_scheduler : Scheduler
new_scheduler = record { running = false; generation = 0; runners = [] }

-- schedule
unfoldable pub request_refresh : Scheduler → Scheduler
request_refresh s = record {
  running = true;
  generation = (s.generation + 1) % generations;
  runners = if s.running then s.runners else s.runners ++ (sleeping ∷ []);
}

abbrev pub runner_at : ℕ → List Runner → Option Runner
runner_at i [] = none
runner_at zero (r ∷ rs) = some r
runner_at (suc i) (r ∷ rs) = runner_at i rs

abbrev pub replace_at : ℕ → List Runner → List Runner → List Runner
replace_at i new [] = []
replace_at zero new (r ∷ rs) = new ++ rs
replace_at (suc i) new (r ∷ rs) = r ∷ replace_at i new rs

-- run, from the end of the sleep to the start of the refresh
unfoldable pub start_refresh : ℕ → Scheduler → Scheduler
start_refresh i s = record s { runners = replace_at i (refreshing s.generation ∷ []) s.runners }

-- run, behind the refresh for a generation, which may have failed: the goroutine returns, or sleeps again
unfoldable pub end_refresh : ℕ → ℕ → Scheduler → Scheduler
end_refresh i generation s =
    if s.generation == generation
    then record s { running = false; runners = replace_at i [] s.runners }
    else record s { runners = replace_at i (sleeping ∷ []) s.runners }

pub data RefreshEvent : Type 0 where
  requested : RefreshEvent
  started : RefreshEvent
  ended : RefreshEvent

pub data Step (s : Scheduler) : RefreshEvent → Scheduler → Type 0 where
  request : Step s requested (request_refresh s)
  start : (i : ℕ) → runner_at i s.runners ≡ some sleeping → Step s started (start_refresh i s)
  end : (i g : ℕ) → runner_at i s.runners ≡ some (refreshing g) → Step s ended (end_refresh i g s)

-- a run from the new scheduler, with its events, the newest first
pub data Run : List RefreshEvent → Scheduler → Type 0 where
  begin : Run [] new_scheduler
  later :
      {events : List RefreshEvent} {e : RefreshEvent} {s t : Scheduler}
      → Run events s
      → Step s e t
      → Run (e ∷ events) t
