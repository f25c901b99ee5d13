-- ===== src/Security/Totp.antt =====
-- internal/security/totp.go: the code of an instant, and its verification with clock skew.
use cubozoa.Prelude.{
  ℕ, zero, suc, ◌+◌, ◌-◌, ◌*◌, ◌/◌, ◌%◌, ◌^◌, Bool, true, false, not, Option, none, some, List, [],
  ◌∷◌, ◌++◌, length, Str, str_eq, Result, ok, err, ◌==◌, if◌then◌else◌,
}
use cubozoa.Store.Models.{Time}
use cubozoa.Host.{Host}

abbrev totp_digits : ℕ
totp_digits = 6

-- 30 s, in nanoseconds and in seconds.
abbrev pub totp_period : ℕ
totp_period = 30_000_000_000

abbrev period_seconds : ℕ
period_seconds = 30

-- `uint64(t.Unix())`: the seconds since 1970, which lies this many after Go's zero time.
abbrev unix_offset : ℕ
unix_offset = 62135596800

unfoldable pub counter : Time → ℕ
counter t = (t / 1_000_000_000 + 2 ^ 64 - unix_offset) % 2 ^ 64 / period_seconds

-- `binary.BigEndian.PutUint64`
unfoldable pub put_uint64 : ℕ → Str
put_uint64 c =
    c / 2 ^ 56 % 256
    ∷ c / 2 ^ 48 % 256
    ∷ c / 2 ^ 40 % 256
    ∷ c / 2 ^ 32 % 256
    ∷ c / 2 ^ 24 % 256
    ∷ c / 2 ^ 16 % 256
    ∷ c / 2 ^ 8 % 256
    ∷ c % 256
    ∷ []

-- An invalid secret is an error of the code; an index out of range would be a panic.
pub data CodeError : Type 0 where
  invalid_secret index_out_of_range : CodeError

-- `s[i]`
unfoldable pub byte_at : Str → ℕ → Option ℕ
byte_at [] i = none
byte_at (b ∷ s) zero = some b
byte_at (b ∷ s) (suc i) = byte_at s i

-- The four bytes from the offset, the top bit cleared: `|` of disjoint bits is a sum.
unfoldable bin_code : Option ℕ → Option ℕ → Option ℕ → Option ℕ → Option ℕ
bin_code (some b0) (some b1) (some b2) (some b3) =
    some (b0 % 128 * 2 ^ 24 + b1 * 2 ^ 16 + b2 * 2 ^ 8 + b3)
bin_code _ _ _ _ = none

-- `for i := 0; i < n; i++ { mod *= 10 }` in uint32
unfoldable power10 : ℕ → ℕ
power10 zero = 1
power10 (suc n) = power10 n * 10 % 2 ^ 32

-- `%0*d` of a number below `10 ^ k`: its `k` digits, the first one first.
unfoldable pub padded : ℕ → ℕ → Str
padded zero n = []
padded (suc k) n = padded k (n / 10) ++ (b'0' + n % 10) ∷ []

-- Dynamic truncation (RFC 4226) of the MAC, and the digits.
unfoldable pub truncate : Str → Result CodeError Str
unfolding byte_at bin_code power10 padded
truncate sum = elim (byte_at sum (length sum - 1)) [
  | none ↦ err index_out_of_range
  | some last ↦
      let offset = last % 16 in
      elim (bin_code (byte_at sum offset) (byte_at sum (offset + 1)) (byte_at sum (offset + 2))
        (byte_at sum (offset + 3))) [
          | none ↦ err index_out_of_range
          | some code ↦ ok (padded totp_digits (code % power10 totp_digits))
        ]
]

module _ (host : Host) where
  -- The code of a counter: the key, the MAC of the counter's eight bytes, and its truncation.
  unfoldable pub code_at : Str → ℕ → Result CodeError Str
  unfolding put_uint64 truncate
  code_at secret c = elim (host.base32_decode (host.to_upper (host.trim_space secret))) [
    | none ↦ err invalid_secret
    | some key ↦ truncate (host.hmac_sha1 key (put_uint64 c))
  ]

  unfoldable pub totp_code : Str → Time → Result CodeError Str
  unfolding code_at counter
  totp_code secret t = code_at secret (counter t)

  -- The loop over the three windows; it stops at the first error or match.
  unfoldable any_window : Str → Str → List Time → Bool
  any_window secret code [] = false
  any_window secret code (t ∷ ts) =
      let rest = any_window secret code ts in
      elim (totp_code secret t) [
        | err _ ↦ false
        | ok want ↦ if str_eq want code then true else rest
      ]

  unfoldable pub verify_totp_at : Str → Str → Time → Bool
  unfolding any_window
  verify_totp_at secret code now =
      let given = host.trim_space code in
      if not (length given == totp_digits)
      then false
      else any_window secret given ((now - totp_period) ∷ now ∷ (now + totp_period) ∷ [])
