-- ===== src/Tests/Limiting.antt =====
-- The rate limiter's and the code generator's theorems at concrete inputs.
use cubozoa.Prelude.{
  ℕ, ◌+◌, ◌-◌, ◌*◌, ◌≤◌, ◌≡◌, refl, ◌⊎◌, ◌↔◌, true, List, [], ◌∷◌, Str, codes, length, All, ok, err,
  arith,
}
use cubozoa.Security.Totp.{totp_code, verify_totp_at, invalid_secret}
use cubozoa.Security.Codes.{IsDigit, totp_code_total, verify_totp_at_iff}
use cubozoa.Server.RateLimit.{RateLimiter, Bucket, new_rate_limiter, token, auth_burst}
use cubozoa.Server.RateLimit.Bound.{count_allowed, count_allowed_bound}
use cubozoa.Server.RateLimit.Idle.{Call}
use cubozoa.Prelude.{str_eq}
use cubozoa.Prelude.Map.{get}
use cubozoa.Tests.Fixtures.{host}

abbrev key : Str
key = codes "10.0.0.1"

abbrev burst : List ℕ
burst = 0 ∷ 1 ∷ 2 ∷ 3 ∷ 4 ∷ 5 ∷ 6 ∷ []

abbrev spent : Bucket
spent = record { tokens = 0; last_seen = 7 }

abbrev limiter : RateLimiter
limiter = record { buckets = (key, spent) ∷ [] }

count_allowed_bound_example :
    count_allowed key burst new_rate_limiter * token ≤ auth_burst * token + (6 - 0)
unfolding get str_eq
count_allowed_bound_example =
    count_allowed_bound key 0 (1 ∷ 2 ∷ 3 ∷ 4 ∷ 5 ∷ 6 ∷ []) new_rate_limiter refl (ground arith)

abbrev calls : List Call
calls = (record { at = 9_000_000_000_000; key = key }) ∷ []

-- 30 March 2017, 17:46:40.
abbrev instant : ℕ
instant = 62135596800 * 1_000_000_000 + 49696533 * 30_000_000_000

totp_code_total_example :
    (totp_code host (codes "KEY") instant ≡ err invalid_secret)
    ⊎ ((code : Str) × (totp_code host (codes "KEY") instant ≡ ok code)
        × (length code ≡ 6)
        × All IsDigit code)
totp_code_total_example = totp_code_total host (λ k m. refl) (codes "KEY") instant

abbrev right : Str
right = codes "438087"

verify_totp_at_iff_example :
    (verify_totp_at host (codes "KEY") right instant ≡ true)
    ↔ ((length right ≡ 6) × ((right ≡ right) ⊎ ((right ≡ right) ⊎ (right ≡ right))))
unfolding totp_code
verify_totp_at_iff_example =
    verify_totp_at_iff host (codes "KEY") instant right right right right refl refl refl
