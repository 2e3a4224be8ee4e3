-- ===== src/Probe/Window.antt =====
-- notifyWindow of internal/probe/collector.go: which jobs of a connection open or join a measurement.
pub mod Once
use stratum_stats.Base.{
  Bool, true, false, ◌&&◌, ◌||◌, not, Bytes, eqb, is_empty, List, [], ◌∷◌, if◌then◌else◌,
}

pub record NotifyWindow : Type 0 where
  pub previous : Bytes
  pub active : Bool
  pub transaction_job_sent : Bool

-- `var window notifyWindow`
abbrev pub new_window : NotifyWindow
new_window = record { previous = []; active = false; transaction_job_sent = false }

-- The arguments of a call of `accept`.
pub record Notification : Type 0 where
  pub previous_hash : Bytes
  pub clean : Bool
  pub has_transactions : Bool

-- The part of `accept` behind the change of the previous hash.
join_window : NotifyWindow → Bool → NotifyWindow × Bool
join_window w has_transactions =
    if not w.active || (has_transactions && w.transaction_job_sent)
    then (w, false)
    else if has_transactions
    then (record w { transaction_job_sent = true }, true)
    else (w, true)

unfoldable pub accept : NotifyWindow → Notification → NotifyWindow × Bool
unfolding join_window
accept w n =
    if is_empty w.previous
    then (record w { previous = n.previous_hash }, false)
    else if eqb n.previous_hash w.previous
    then join_window w n.has_transactions
    else if n.clean
    then join_window
        (record { previous = n.previous_hash; active = true; transaction_job_sent = false })
        n.has_transactions
    else (w, false)

-- The notifications of a connection in turn: those that are accepted.
unfoldable pub accepted : NotifyWindow → List Notification → List Notification
accepted w [] = []
accepted w (n ∷ ns) =
    let (w', taken) = accept w n in let rest = accepted w' ns in if taken then n ∷ rest else rest
