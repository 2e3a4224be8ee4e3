-- ===== src/Probe/Retry.antt =====
-- watch and shouldRetry of internal/probe/reconnect.go. What a session and a pause come to is given
-- by the environment, as a list of rounds.
use native.Mathlib.Nat.{pow-suc}
use stratum_stats.Base.{
  ℕ, zero, suc, ◌*◌, ◌^◌, ◌≡◌, refl, min, Bool, true, false, not, List, [], ◌∷◌, ltb, if◌then◌else◌,
  arith, replicate,
}
use stratum_stats.Model.{second}

-- How a session ends: with the context done, with errPoolRejected, or with another error.
pub data SessionEnd : Type 0 where
  cancelled rejected failed : SessionEnd

-- A session, and whether the context is done before the pause behind it is over.
pub record Round : Type 0 where
  pub session : SessionEnd
  pub stopped_in_pause : Bool

-- How `watch` returns; `watching` where the rounds given are over and it has not returned.
pub data WatchEnd : Type 0 where
  context_done not_retrying watching : WatchEnd

abbrev minute : ℕ
minute = 60 * second

unfoldable pub should_retry : SessionEnd → Bool
should_retry rejected = false
should_retry _ = true

unfoldable pub next_backoff : ℕ → ℕ
next_backoff backoff = if ltb minute (backoff * 2) then minute else backoff * 2

-- The loop: the pauses that it begins, and how it returns.
unfoldable pub watch_from : ℕ → List Round → List ℕ × WatchEnd
unfolding next_backoff should_retry
watch_from backoff [] = ([], watching)
watch_from backoff (r ∷ rs) =
    let (pauses, end) = watch_from (next_backoff backoff) rs in
    elim r.session [
      | cancelled ↦ ([], context_done)
      | end_of_session ↦
          if not (should_retry end_of_session)
          then ([], not_retrying)
          else if r.stopped_in_pause
          then (backoff ∷ [], context_done)
          else (backoff ∷ pauses, end)
    ]

unfoldable pub watch : List Round → List ℕ × WatchEnd
watch = watch_from second

-- The pause behind the k-th failure in a row, from 0: doubled each time, one minute at most.
abbrev pub pause : ℕ → ℕ
pause k = min (2 ^ k * second) minute

abbrev pub failure : Round
failure = record { session = failed; stopped_in_pause = false }

abbrev pub pauses_from : ℕ → ℕ → List ℕ
pauses_from k zero = []
pauses_from k (suc n) = pause k ∷ pauses_from (suc k) n

next_backoff-pause : (k : ℕ) → next_backoff (pause k) ≡ pause (suc k)
unfolding next_backoff
next_backoff-pause k = ground (arith, pow-suc 2 k)

watch_from-failures :
    (k n : ℕ) → watch_from (pause k) (replicate n failure) ≡ (pauses_from k n, watching)
unfolding watch_from
watch_from-failures k zero = refl
watch_from-failures k (suc n) = rw (next_backoff-pause k, watch_from-failures (suc k) n)

-- After n failures that are no rejection, with the context not done, `watch` has not returned: it
-- has paused n times, for 1, 2, 4 ... seconds, and never for more than a minute.
pub watch-failures : (n : ℕ) → watch (replicate n failure) ≡ (pauses_from 0 n, watching)
unfolding watch
watch-failures n = watch_from-failures 0 n
