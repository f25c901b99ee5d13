-- ===== src/Server/RateLimit/Bound.antt =====
-- How many attempts the limiter of internal/server/ratelimit.go lets through.
use cubozoa.Prelude.{
  ℕ, ◌+◌, ◌-◌, ◌*◌, ◌≤◌, ◌≡◌, refl, inl, inr, true, false, none, some, List, [], ◌∷◌, Str, ltb,
  if◌then◌else◌, arith, Bool-cases,
}
use cubozoa.Prelude.Map.{get, get-put_self}
use cubozoa.Store.Models.{Time}
use cubozoa.Server.RateLimit.{Bucket, RateLimiter, token, auth_burst, refill, allow}

-- The times do not decrease, from `t` on.
abbrev Ascending : Time → List Time → Type 0
Ascending t [] = Unit
Ascending t (u ∷ us) = (t ≤ u) × Ascending u us

abbrev last_of : Time → List Time → Time
last_of t [] = t
last_of t (u ∷ us) = last_of u us

-- How many of the calls for one key are allowed.
unfoldable pub count_allowed : Str → List Time → RateLimiter → ℕ
count_allowed key [] rl = 0
count_allowed key (t ∷ ts) rl =
    (if (allow t key rl).0 then 1 else 0) + count_allowed key ts (allow t key rl).1

-- One call on a bucket that is there.
abbrev after : Time → Bucket → Bucket
after t b = record {
  tokens = if ltb (refill t b) token then refill t b else refill t b - token;
  last_seen = t;
}

allow-after :
    (key : Str) (t : Time) (b : Bucket) (rl : RateLimiter)
    → get key rl.buckets ≡ some b
    → ((allow t key rl).0 ≡ (if ltb (refill t b) token then false else true))
      × (get key (allow t key rl).1.buckets ≡ some (after t b))
unfolding allow
allow-after key t b rl g = elim (Bool-cases (ltb (refill t b) token)) [
  | inl e ↦ rw (g, allow) (rw e (refl, get-put_self key _ rl.buckets))
  | inr e ↦ rw (g, allow) (rw e (refl, get-put_self key _ rl.buckets))
]

le-last_of : (t : Time) (ts : List Time) → Ascending t ts → t ≤ last_of t ts
le-last_of t [] a = omega arith
le-last_of t (u ∷ us) (h, a) = omega (arith, le-last_of u us a)

count_allowed-le :
    (key : Str) (ts : List Time) (b : Bucket) (rl : RateLimiter)
    → get key rl.buckets ≡ some b
    → Ascending b.last_seen ts
    → count_allowed key ts rl * token ≤ b.tokens + (last_of b.last_seen ts - b.last_seen)
unfolding count_allowed refill
count_allowed-le key [] b rl g a = omega arith
count_allowed-le key (t ∷ ts) b rl g (le, a) =
    let (d, g') = allow-after key t b rl g in
    rw d (
      ground
        (arith, count_allowed-le key ts (after t b) (allow t key rl).1 g' a, le-last_of t ts a))

allow-new :
    (key : Str) (t : Time) (rl : RateLimiter)
    → get key rl.buckets ≡ none
    → ((allow t key rl).0 ≡ true)
      × (get key (allow t key rl).1.buckets
          ≡ some (record { tokens = (auth_burst - 1) * token; last_seen = t }))
unfolding allow
allow-new key t rl g = rw (g, allow) (refl, get-put_self key _ rl.buckets)

-- In any run of calls for a key that the limiter has not seen, the attempts that it lets through are
-- at most five, and one more for every five seconds that the run lasts.
pub count_allowed_bound :
    (key : Str) (t : Time) (ts : List Time) (rl : RateLimiter)
    → get key rl.buckets ≡ none
    → Ascending t ts
    → count_allowed key (t ∷ ts) rl * token ≤ auth_burst * token + (last_of t ts - t)
unfolding count_allowed
count_allowed_bound key t ts rl g a =
    let b : Bucket = record { tokens = (auth_burst - 1) * token; last_seen = t } in
    let (d, g') = allow-new key t rl g in
    rw d (omega (arith, count_allowed-le key ts b (allow t key rl).1 g' a, le-last_of t ts a))

-- Five seconds after its last call a key is allowed again, whatever came before.
allow_after_wait :
    (key : Str) (now : Time) (b : Bucket) (rl : RateLimiter)
    → get key rl.buckets ≡ some b
    → b.last_seen + token ≤ now
    → (allow now key rl).0 ≡ true
unfolding allow
allow_after_wait key now b rl g h = ground (arith, g)
