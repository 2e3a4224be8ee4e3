-- ===== src/Probe/Window/Once.antt =====
-- What a window lets through.
use stratum_stats.Base.{
  ◌&&◌, ℕ, ◌+◌, ◌≤◌, ◌≡◌, refl, ap, false, Bytes, eqb, eqb_iff, is_empty, List, [], ◌∷◌,
  if◌then◌else◌, All, arith, Bool-cases, inl, inr, ◌⊎◌, sum_by,
}
use stratum_stats.Probe.Window.{NotifyWindow, new_window, Notification, accept, accepted}

-- How many of the jobs for a block carry transactions.
abbrev pub transaction_jobs : Bytes → List Notification → ℕ
transaction_jobs hash =
    sum_by (λ n. if n.has_transactions && eqb n.previous_hash hash then 1 else 0)

-- A job that does not open a window on another block than `hash`.
abbrev pub OpensNothing : Bytes → Notification → Type 0
OpensNothing hash n = (n.clean ≡ false) ⊎ (n.previous_hash ≡ hash)

-- The jobs for `hash` with transactions that a window can still let through.
abbrev left : Bytes → NotifyWindow → ℕ
left hash w = if eqb hash w.previous then (if w.transaction_job_sent then 0 else 1) else 1

accept-left :
    (hash : Bytes) (w : NotifyWindow) (n : Notification)
    → is_empty hash ≡ false
    → OpensNothing hash n
    → (if (accept w n).1
          then (if n.has_transactions && eqb n.previous_hash hash then 1 else 0)
          else 0)
        + left hash (accept w n).0
      ≤ left hash w
unfolding accept
accept-left hash w n e h = ground (
  arith,
  eqb_iff hash w.previous,
  eqb_iff n.previous_hash w.previous,
  eqb_iff n.previous_hash hash,
  eqb_iff hash n.previous_hash,
  λ (p : hash ≡ w.previous). ap is_empty p,
)

transaction_jobs-le-left :
    (hash : Bytes) (w : NotifyWindow) (ns : List Notification)
    → is_empty hash ≡ false
    → All (OpensNothing hash) ns
    → transaction_jobs hash (accepted w ns) ≤ left hash w
unfolding accepted
transaction_jobs-le-left hash w [] e h = omega arith
transaction_jobs-le-left hash w (n ∷ ns) e h =
    let one = accept-left hash w n e h.0 in
    let rest = transaction_jobs-le-left hash (accept w n).0 ns e h.1 in
    elim (Bool-cases (accept w n).1) [
      | inl t ↦ rw t (omega (arith, rw t at one, rest))
      | inr t ↦ rw t (omega (arith, rw t at one, rest))
    ]

left-le-one : (hash : Bytes) (w : NotifyWindow) → left hash w ≤ 1
left-le-one hash w = ground arith

-- While no clean job names another block than `hash`, which is not empty, at most one job with transactions for `hash` is
-- let through, whatever the window was before and whatever jobs that are not clean come for other blocks.
pub transaction_jobs-accepted :
    (hash : Bytes) (w : NotifyWindow) (ns : List Notification)
    → is_empty hash ≡ false
    → All (OpensNothing hash) ns
    → transaction_jobs hash (accepted w ns) ≤ 1
transaction_jobs-accepted hash w ns e h =
    omega (arith, transaction_jobs-le-left hash w ns e h, left-le-one hash w)

accept_waiting :
    (hash : Bytes) (w : NotifyWindow) (n : Notification)
    → is_empty hash ≡ false
    → w.previous ≡ hash
    → w.active ≡ false
    → OpensNothing hash n
    → accept w n ≡ (w, false)
unfolding accept
accept_waiting hash w n e p a h = ground (arith, eqb_iff n.previous_hash w.previous, ap is_empty p)

waiting :
    (hash : Bytes) (w : NotifyWindow) (ns : List Notification)
    → is_empty hash ≡ false
    → w.previous ≡ hash
    → w.active ≡ false
    → All (OpensNothing hash) ns
    → accepted w ns ≡ []
unfolding accepted
waiting hash w [] e p a h = refl
waiting hash w (n ∷ ns) e p a h =
    rw (accept_waiting hash w n e p a h.0) (waiting hash w ns e p a h.1)

-- A connection measures nothing before it sees a clean change of block: after a first job that names a
-- block, as long as no clean job names another block than that job did, no job is accepted.
pub accepted-first_block :
    (first : Notification) (ns : List Notification)
    → is_empty first.previous_hash ≡ false
    → All (OpensNothing first.previous_hash) ns
    → accepted new_window (first ∷ ns) ≡ []
unfolding accepted accept
accepted-first_block first ns e h =
    waiting first.previous_hash (record new_window { previous = first.previous_hash }) ns e refl
      refl h
