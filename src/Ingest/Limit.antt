-- ===== src/Ingest/Limit.antt =====
-- requestLimiter of internal/ingest/limit.go, a token bucket with a bound on concurrent requests.
-- Tokens are counted in billionths, so that `elapsed.Seconds() * rate` is a whole number of them for
-- a whole rate, as the program's is: one token a second. float64 rounding is not modelled.
pub mod Rate
use stratum_stats.Base.{
  ℕ, ◌+◌, ◌-◌, ◌*◌, Bool, true, false, ◌||◌, List, [], ◌∷◌, ltb, leb, if◌then◌else◌,
}
use stratum_stats.Model.{Time, second}

-- What newRateLimitedHandler is given.
pub record Limits : Type 0 where
  pub rate : ℕ
  pub burst : ℕ
  pub max_concurrent : ℕ

pub record RequestLimiter : Type 0 where
  pub tokens : ℕ
  pub last : Time
  pub in_flight : ℕ

-- RateLimit's own limits
abbrev pub default_limits : Limits
default_limits = record { rate = 1; burst = 10; max_concurrent = 8 }

unfoldable pub new_limiter : Limits → Time → RequestLimiter
new_limiter l now = record { tokens = l.burst * second; last = now; in_flight = 0 }

-- the tokens that the elapsed time adds, up to the burst
unfoldable pub refill : Limits → Time → RequestLimiter → RequestLimiter
refill l now s =
    if ltb s.last now
    then (let tokens = s.tokens + (now - s.last) * l.rate in
        record s {
          tokens = if ltb (l.burst * second) tokens then l.burst * second else tokens;
          last = now;
        })
    else s

unfoldable pub acquire : Limits → Time → RequestLimiter → RequestLimiter × Bool
unfolding refill
acquire l now s =
    let r = refill l now s in
    if leb l.max_concurrent r.in_flight || ltb r.tokens second
    then (r, false)
    else (record r { tokens = r.tokens - second; in_flight = r.in_flight + 1 }, true)

-- `release` runs once behind each request that was admitted, so the count is not 0 there.
unfoldable pub release : RequestLimiter → RequestLimiter
release s = record s { in_flight = s.in_flight - 1 }

-- What the handlers do to the limiter, in the order of the mutex.
pub data Action : Type 0 where
  arrive : Time → Action
  leave : Action

-- The limiter behind the actions, and how many requests were admitted.
unfoldable pub run : Limits → RequestLimiter → List Action → RequestLimiter × ℕ
run l s [] = (s, 0)
run l s (leave ∷ rest) = run l (release s) rest
run l s (arrive now ∷ rest) =
    let (s', admitted) = acquire l now s in
    let (end, n) = run l s' rest in (end, if admitted then n + 1 else n)
