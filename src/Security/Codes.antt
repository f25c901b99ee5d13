-- ===== src/Security/Codes.antt =====
-- What the one-time codes of internal/security/totp.go look like, and which ones are accepted.
use cubozoa.Prelude.{
  ℕ, zero, suc, ◌+◌, ◌-◌, ◌*◌, ◌/◌, ◌%◌, ◌^◌, ◌≤◌, ◌<◌, ◌≡◌, refl, ap, ◌⊎◌, ◌↔◌, inl, inr, true,
  false, some, [], ◌∷◌, length, length-append, Str, str_eq_iff, ok, err, All, All-append, arith,
  Option-cases,
}
use cubozoa.Store.Models.{Time}
use cubozoa.Host.{Host}
use cubozoa.Security.Totp.{
  totp_period, byte_at, padded, truncate, code_at, totp_code, verify_totp_at, counter,
  invalid_secret, put_uint64,
}

abbrev pub IsDigit : ℕ → Type 0
IsDigit c = (b'0' ≤ c) × (c ≤ b'9')

length-padded : (k n : ℕ) → length (padded k n) ≡ k
unfolding padded
length-padded zero n = refl
length-padded (suc k) n =
    omega
      (arith, length-append (padded k (n / 10)) ((b'0' + n % 10) ∷ []), length-padded k (n / 10))

padded-IsDigit : (k n : ℕ) → All IsDigit (padded k n)
unfolding padded
padded-IsDigit zero n = tt
padded-IsDigit (suc k) n =
    All-append IsDigit (padded k (n / 10)) _ (padded-IsDigit k (n / 10)) (omega arith)

byte_at-some : (s : Str) (i : ℕ) → i < length s → (b : ℕ) × (byte_at s i ≡ some b)
unfolding byte_at
byte_at-some [] i h = absurd (omega arith)
byte_at-some (b ∷ s) zero h = (b, refl)
byte_at-some (b ∷ s) (suc i) h = byte_at-some s i (omega arith)

-- A MAC of 20 bytes is truncated to six decimal digits: no index is out of range.
truncate_total :
    (sum : Str)
    → length sum ≡ 20
    → (code : Str) × (truncate sum ≡ ok code) × (length code ≡ 6) × All IsDigit code
unfolding truncate
truncate_total sum h =
    let (last, e) = byte_at-some sum (length sum - 1) (omega arith) in
    let (b0, e0) = byte_at-some sum (last % 16) (omega arith) in
    let (b1, e1) = byte_at-some sum (last % 16 + 1) (omega arith) in
    let (b2, e2) = byte_at-some sum (last % 16 + 2) (omega arith) in
    let (b3, e3) = byte_at-some sum (last % 16 + 3) (omega arith) in
    let n = (b0 % 128 * 2 ^ 24 + b1 * 2 ^ 16 + b2 * 2 ^ 8 + b3) % 1_000_000 in
    (padded 6 n, rw (e, truncate) (rw (e0, e1, e2, e3)), length-padded 6 n, padded-IsDigit 6 n)

counter_period :
    (n d : ℕ)
    → n * 30 < 2 ^ 62
    → d < 30_000_000_000
    → counter (62135596800 * 1_000_000_000 + n * 30_000_000_000 + d)
      ≡ counter (62135596800 * 1_000_000_000 + n * 30_000_000_000)
unfolding counter
counter_period n d h k = omega arith

module _ (host : Host) (mac_length : (key msg : Str) → length (host.hmac_sha1 key msg) ≡ 20) where
  -- With a MAC of 20 bytes, a code is six decimal digits whenever the secret decodes, and the only
  -- error is that it does not.
  pub totp_code_total :
      (secret : Str) (t : Time)
      → (totp_code host secret t ≡ err invalid_secret)
        ⊎ ((code : Str) × (totp_code host secret t ≡ ok code)
            × (length code ≡ 6)
            × All IsDigit code)
  unfolding totp_code
  totp_code_total secret t =
      elim (Option-cases (host.base32_decode (host.to_upper (host.trim_space secret)))) [
        | inl e ↦ inl (rw (e, code_at))
        | inr (key, e) ↦
            let (code, c, l, d) = truncate_total _ (mac_length key (put_uint64 (counter t))) in
            inr (code, rw (e, code_at) c, l, d)
      ]

-- The code is the same throughout each period of 30 seconds since 1970.
totp_code_period :
    (host : Host) (secret : Str) (n d : ℕ)
    → n * 30 < 2 ^ 62
    → d < 30_000_000_000
    → totp_code host secret (62135596800 * 1_000_000_000 + n * 30_000_000_000 + d)
      ≡ totp_code host secret (62135596800 * 1_000_000_000 + n * 30_000_000_000)
unfolding totp_code
totp_code_period host secret n d h k = ap (code_at host secret) (counter_period n d h k)

module _ (host : Host) (secret : Str) (now : Time) where
  -- Where the three codes are there, a text is accepted exactly if, trimmed, it is one of them and has
  -- six bytes.
  pub verify_totp_at_iff :
      (code before at after : Str)
      → totp_code host secret (now - totp_period) ≡ ok before
      → totp_code host secret now ≡ ok at
      → totp_code host secret (now + totp_period) ≡ ok after
      → (verify_totp_at host secret code now ≡ true) ↔ (
          (length (host.trim_space code) ≡ 6)
          × ((before ≡ host.trim_space code)
              ⊎ ((at ≡ host.trim_space code) ⊎ (after ≡ host.trim_space code))))
  unfolding verify_totp_at
  verify_totp_at_iff code before at after p q r =
      let given = host.trim_space code in
      (
        ground (arith, str_eq_iff before given, str_eq_iff at given, str_eq_iff after given),
        ground (arith, str_eq_iff before given, str_eq_iff at given, str_eq_iff after given),
      )

  -- With a secret that does not decode, no code is accepted.
  verify_totp_at_invalid :
      (code : Str)
      → ((t : Time) → totp_code host secret t ≡ err invalid_secret)
      → verify_totp_at host secret code now ≡ false
  unfolding verify_totp_at
  verify_totp_at_invalid code h = ground (arith, h (now - totp_period))
