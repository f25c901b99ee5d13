-- ===== src/Server/RateLimit.antt =====
-- internal/server/ratelimit.go: the token bucket in front of authentication.
-- The bucket's float64 is an exact number of units, of which a token has 5,000,000,000: at 0.2 tokens a
-- second a nanosecond brings one unit. The clock is Go's monotonic one and does not go back.
pub mod Bound
pub mod Idle
use cubozoa.Prelude.{
  ℕ, ◌+◌, ◌-◌, ◌*◌, min, Bool, true, false, none, some, [], Str, ltb, if◌then◌else◌,
}
use cubozoa.Prelude.Map
use cubozoa.Prelude.Map.{Map}
use cubozoa.Store.Models.{Time}

pub record Bucket : Type 0 where
  pub tokens : ℕ
  pub last_seen : Time

pub record RateLimiter : Type 0 where
  pub buckets : Map Bucket

abbrev pub token : ℕ
token = 5_000_000_000

abbrev pub auth_burst : ℕ
auth_burst = 5

abbrev pub new_rate_limiter : RateLimiter
new_rate_limiter = record { buckets = [] }

-- The tokens of a bucket at `now`, before one is taken.
unfoldable pub refill : Time → Bucket → ℕ
refill now b = min (auth_burst * token) (b.tokens + (now - b.last_seen))

unfoldable pub allow : Time → Str → RateLimiter → Bool × RateLimiter
unfolding refill
allow now key rl = elim (Map.get key rl.buckets) [
  | none ↦ (
    true,
    record {
      buckets =
          Map.put key (record { tokens = (auth_burst - 1) * token; last_seen = now }) rl.buckets;
    },
  )
  | some b ↦
      let tokens = refill now b in
      if ltb tokens token
      then (
        false,
        record { buckets = Map.put key (record { tokens = tokens; last_seen = now }) rl.buckets },
      )
      else (
        true,
        record {
          buckets = Map.put key (record { tokens = tokens - token; last_seen = now }) rl.buckets;
        },
      )
]

-- 30 minutes, in nanoseconds.
abbrev pub idle_limit : ℕ
idle_limit = 1_800_000_000_000

-- One round of the collector's loop.
unfoldable pub gc : Time → RateLimiter → RateLimiter
gc now rl = record {
  buckets = Map.drop_where (λ (b : Bucket). ltb b.last_seen (now - idle_limit)) rl.buckets;
}
