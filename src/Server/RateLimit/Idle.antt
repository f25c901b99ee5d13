-- ===== src/Server/RateLimit/Idle.antt =====
-- The collector of internal/server/ratelimit.go, beside a limiter without it.
use cubozoa.Prelude.{
  ◌+◌, ◌-◌, ◌*◌, ◌≤◌, ◌≡◌, refl, sym, ap, ap₂, ◌⊎◌, inl, inr, Bool, true, false, none, some, Option,
  List, [], ◌∷◌, Str, str_eq, ltb, if◌then◌else◌, arith, Option-cases, Bool-cases,
}
use cubozoa.Prelude.Map.{get, get-put, get-drop_where, IsMap}
use cubozoa.Store.Models.{Time}
use cubozoa.Server.RateLimit.{Bucket, RateLimiter, token, auth_burst, refill, allow, gc, idle_limit}

-- A bucket that is full again at `now` and later.
abbrev IsIdle : Time → Bucket → Type 0
IsIdle now b = b.last_seen + auth_burst * token ≤ now

-- Two limiters that hold the same buckets, but that the second may lack ones that are idle.
abbrev Alike : Time → Option Bucket → Option Bucket → Type 0
Alike now p q = (p ≡ q) ⊎ ((b : Bucket) × (p ≡ some b) × (q ≡ none) × IsIdle now b)

abbrev AllAlike : Time → RateLimiter → RateLimiter → Type 0
AllAlike now rl rl' = (key : Str) → Alike now (get key rl.buckets) (get key rl'.buckets)

-- The calls of a schedule and the times at which they come.
pub record Call : Type 0 where
  pub at : Time
  pub key : Str

abbrev InOrder : Time → List Call → Type 0
InOrder now [] = Unit
InOrder now (c ∷ cs) = (now ≤ c.at) × InOrder c.at cs

unfoldable pub answers : List Call → RateLimiter → List Bool
answers [] rl = []
answers (c ∷ cs) rl = (allow c.at c.key rl).0 ∷ answers cs (allow c.at c.key rl).1

-- One call, on the bucket that it finds: its answer and the bucket that it leaves.
step : Time → Option Bucket → Bool × Bucket
step now none = (true, record { tokens = (auth_burst - 1) * token; last_seen = now })
step now (some b) =
    if ltb (refill now b) token
    then (false, record { tokens = refill now b; last_seen = now })
    else (true, record { tokens = refill now b - token; last_seen = now })

allow-step :
    (now : Time) (key j : Str) (rl : RateLimiter)
    → ((allow now key rl).0 ≡ (step now (get key rl.buckets)).0)
      × (get j (allow now key rl).1.buckets
          ≡ (if str_eq key j then some (step now (get key rl.buckets)).1 else get j rl.buckets))
unfolding allow step
allow-step now key j rl = elim (Option-cases (get key rl.buckets)) [
  | inl g ↦ rw (g, allow) (refl, get-put key j _ rl.buckets)
  | inr (b, g) ↦ elim (Bool-cases (ltb (refill now b) token)) [
    | inl e ↦ rw (g, allow) (rw e (refl, get-put key j _ rl.buckets))
    | inr e ↦ rw (g, allow) (rw e (refl, get-put key j _ rl.buckets))
  ]
]

-- An idle bucket and an absent one answer alike and leave the same bucket.
step-Alike : (now t : Time) (p q : Option Bucket) → now ≤ t → Alike now p q → step t p ≡ step t q
unfolding step refill
step-Alike now t p q le (inl e) = ap (step t) e
step-Alike now t p q le (inr (b, e, f, idle)) = rw (e, f) (ground arith)

allow-AllAlike :
    (now t : Time) (key : Str) (rl rl' : RateLimiter)
    → now ≤ t
    → AllAlike now rl rl'
    → AllAlike t (allow t key rl).1 (allow t key rl').1
allow-AllAlike now t key rl rl' le h j =
    let a = (allow-step t key j rl).1 in
    let b = (allow-step t key j rl').1 in
    let same = step-Alike now t (get key rl.buckets) (get key rl'.buckets) le (h key) in
    rw (a, b)
      (elim (Bool-cases (str_eq key j)) [
        | inl e ↦ rw e (inl (rw same))
        | inr e ↦ rw e (later (get j rl.buckets) (get j rl'.buckets) (h j))
      ])
  where
    later : (p q : Option Bucket) → Alike now p q → Alike t p q
    later p q (inl e) = inl e
    later p q (inr (x, e, f, idle)) = inr (x, e, f, omega arith)

answers-AllAlike :
    (cs : List Call) (now : Time) (rl rl' : RateLimiter)
    → InOrder now cs
    → AllAlike now rl rl'
    → answers cs rl ≡ answers cs rl'
unfolding answers
answers-AllAlike [] now rl rl' o h = refl
answers-AllAlike (c ∷ cs) now rl rl' (le, o) h =
    let same = step-Alike now c.at (get c.key rl.buckets) (get c.key rl'.buckets) le (h c.key) in
    ap₂ ◌∷◌ (cc ((allow-step c.at c.key c.key rl).0, (allow-step c.at c.key c.key rl').0, same))
      (answers-AllAlike cs c.at _ _ o (allow-AllAlike now c.at c.key rl rl' le h))

-- Whether the collector has run or not, all later calls get the same answers: a bucket that it evicts
-- would have been full again.
pub answers-gc :
    (cs : List Call) (now : Time) (rl : RateLimiter)
    → IsMap rl.buckets
    → InOrder now cs
    → answers cs (gc now rl) ≡ answers cs rl
unfolding gc
answers-gc cs now rl m o = sym (answers-AllAlike cs now rl (gc now rl) o alike)
  where
    alike : AllAlike now rl (gc now rl)
    alike key =
        let stale : (Bucket → Bool) = λ b. ltb b.last_seen (now - idle_limit) in
        let d = get-drop_where stale key rl.buckets m in
        elim (Option-cases (get key rl.buckets)) [
          | inl g ↦ rw (d, g) (inl refl)
          | inr (b, g) ↦ elim (Bool-cases (stale b)) [
            | inl e ↦ inr (b, g, rw (d, g) (ground (arith, e)), ground (arith, e))
            | inr e ↦ rw (d, g) (rw e (inl refl))
          ]
        ]
