-- ===== src/Ingest/Limit/Rate.antt =====
-- How many requests the limiter admits.
use native.Mathlib.Nat.{mul-le-mul_right}
use stratum_stats.Base.{
  ℕ, ◌+◌, ◌-◌, ◌*◌, ◌≤◌, ◌<◌, ◌≡◌, true, List, [], ◌∷◌, if◌then◌else◌, arith, Bool-cases, inl, inr,
  ap, All, max,
}
use stratum_stats.Model.{Time, second}
use stratum_stats.Ingest.Limit.{
  Limits, RequestLimiter, Action, arrive, leave, new_limiter, refill, acquire, release, run,
}

-- The bounds that hold of a limiter between two calls.
pub record IsBounded (l : Limits) (s : RequestLimiter) : Type 0 where
  pub tokens : s.tokens ≤ l.burst * second
  pub in_flight : s.in_flight ≤ l.max_concurrent

pub new_limiter-IsBounded : (l : Limits) (now : Time) → IsBounded l (new_limiter l now)
unfolding new_limiter
new_limiter-IsBounded l now = omega arith

refill-IsBounded :
    (l : Limits) (now : Time) (s : RequestLimiter) → IsBounded l s → IsBounded l (refill l now s)
unfolding refill
refill-IsBounded l now s h = ground arith

acquire-IsBounded :
    (l : Limits) (now : Time) (s : RequestLimiter) → IsBounded l s → IsBounded l (acquire l now s).0
unfolding acquire
acquire-IsBounded l now s h = ground (arith, refill-IsBounded l now s h)

-- From a limiter within its bounds, whatever requests come and go, at whatever times, it never holds more tokens than the
-- burst and never has more requests in flight than its bound.
pub run-IsBounded :
    (l : Limits) (s : RequestLimiter) (actions : List Action)
    → IsBounded l s
    → IsBounded l (run l s actions).0
unfolding run
run-IsBounded l s [] h = h
run-IsBounded l s (leave ∷ rest) h =
    run-IsBounded l (release s) rest (unfold release in omega arith)
run-IsBounded l s (arrive now ∷ rest) h =
    run-IsBounded l (acquire l now s).0 rest (acquire-IsBounded l now s h)

product_split : (last now rate : ℕ) → last < now → (now - last) * rate + last * rate ≡ now * rate
product_split last now rate h =
    let whole : now ≡ now - last + last = omega arith in
    omega (arith, ap (λ (t : ℕ). t * rate) whole)

refill_pays :
    (l : Limits) (now : Time) (s : RequestLimiter)
    → ((refill l now s).tokens + s.last * l.rate ≤ s.tokens + (refill l now s).last * l.rate)
      × (s.last ≤ (refill l now s).last)
      × ((refill l now s).last ≤ max s.last now)
unfolding refill
refill_pays l now s = ground (arith, product_split s.last now l.rate)

-- One arrival pays for its admission out of the tokens and of the time that has passed.
acquire_pays :
    (l : Limits) (now : Time) (s : RequestLimiter)
    → ((if (acquire l now s).1 then second else 0) + (acquire l now s).0.tokens + s.last * l.rate
        ≤ s.tokens + (acquire l now s).0.last * l.rate)
      × (s.last ≤ (acquire l now s).0.last)
      × ((acquire l now s).0.last ≤ max s.last now)
unfolding acquire
acquire_pays l now s = ground (arith, refill_pays l now s)

-- The accounts of a run: what it admits is paid by the tokens at the start and by the time.
run_pays :
    (l : Limits) (s : RequestLimiter) (actions : List Action)
    → ((run l s actions).1 * second + (run l s actions).0.tokens + s.last * l.rate
        ≤ s.tokens + (run l s actions).0.last * l.rate)
      × (s.last ≤ (run l s actions).0.last)
unfolding run release
run_pays l s [] = omega arith
run_pays l s (leave ∷ rest) = run_pays l (release s) rest
run_pays l s (arrive now ∷ rest) =
    let one = acquire_pays l now s in
    let more = run_pays l (acquire l now s).0 rest in
    elim (Bool-cases (acquire l now s).1) [
      | inl t ↦ rw t (omega (arith, rw t at one, more))
      | inr t ↦ rw t (omega (arith, rw t at one, more))
    ]

-- No arrival is later than `end`.
abbrev pub IsBy : Time → Action → Type 0
IsBy end (arrive now) = now ≤ end
IsBy end leave = Unit

run-last :
    (l : Limits) (s : RequestLimiter) (actions : List Action) (end : Time)
    → s.last ≤ end
    → All (IsBy end) actions
    → (run l s actions).0.last ≤ end
unfolding run release
run-last l s [] end h a = h
run-last l s (leave ∷ rest) end h a = run-last l (release s) rest end h a.1
run-last l s (arrive now ∷ rest) end h a =
    run-last l (acquire l now s).0 rest end (omega (arith, acquire_pays l now s, h, a.0)) a.1

-- From the start of the service to any later time, where no request arrives behind that time, the number of
-- admitted requests is at most the burst plus the rate times the seconds that have passed.
pub run-rate :
    (l : Limits) (start end : Time) (actions : List Action)
    → start ≤ end
    → All (IsBy end) actions
    → (run l (new_limiter l start) actions).1 * second ≤ l.burst * second + (end - start) * l.rate
unfolding new_limiter
run-rate l start end actions h a =
    let s = new_limiter l start in
    let (paid, later) = run_pays l s actions in
    let bound = mul-le-mul_right l.rate (run-last l s actions end h a) in
    let whole : end ≡ end - start + start = omega arith in
    omega (arith, paid, bound, ap (λ (t : ℕ). t * l.rate) whole)

-- A request is admitted if a slot is free and the clock is one token's time or more past the last
-- request that moved it, provided that the burst is not zero.
pub acquire-after_pause :
    (l : Limits) (now : Time) (s : RequestLimiter)
    → 1 ≤ l.burst
    → s.in_flight < l.max_concurrent
    → s.last < now
    → second ≤ (now - s.last) * l.rate
    → (acquire l now s).1 ≡ true
unfolding acquire
acquire-after_pause l now s b f t h = ground arith
