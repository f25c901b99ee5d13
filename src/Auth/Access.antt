-- ===== src/Auth/Access.antt =====
-- Who `Authenticate` of internal/auth/service.go lets in, and what its errors reveal.
use cubozoa.Prelude.{
  ◌+◌, ◌-◌, ◌<◌, ◌≡◌, inl, inr, true, false, ◌&&◌, ◌++◌, length, length-append,
  take_of_length-append, drop_of_length-append, Str, ok, err, arith, Bool-cases, Result-cases,
}
use cubozoa.Host.{Host}
use cubozoa.Store.Models.{Time, User}
use cubozoa.Store.State.{JsonStore, not_found}
use cubozoa.Store.Accounts.{get_user_by_name}
use cubozoa.Security.Totp.{verify_totp_at}
use cubozoa.Auth.Service.{
  Service, account_locked, is_locked, all_digits, verify_credentials, record_failure, authenticate,
}

module _ (host : Host) (service : Service) (now : Time) where
  -- A login that succeeds is one of a known account that is not locked, with credentials that verify;
  -- the user that it returns has no failures left and this login's time.
  pub authenticate_sound :
      (username password : Str) (s : JsonStore) {v : User}
      → (authenticate host service now username password s).0 ≡ ok v
      → (u : User) × (get_user_by_name host.fold username s ≡ ok u)
        × (is_locked now u ≡ false)
        × (verify_credentials host now u password ≡ true)
        × (v ≡ record u { failed_login_attempts = 0; locked_until = 0; last_login_at = now })
  unfolding authenticate
  authenticate_sound username password s h =
      elim (Result-cases (get_user_by_name host.fold username s)) [
        | inl (e, g) ↦ absurd (ground (arith, g))
        | inr (u, g) ↦ elim (Bool-cases (is_locked now u)) [
          | inl l ↦ absurd (ground (arith, g, l))
          | inr l ↦ elim (Bool-cases (verify_credentials host now u password)) [
            | inl w ↦ (u, g, l, w, ground (arith, g, l, w))
            | inr w ↦ absurd (ground (arith, g, l, w))
          ]
        ]
      ]

  -- A locked account refuses every password, the right one too, and nothing in the store changes.
  pub authenticate_locked :
      (username password : Str) (s : JsonStore) {u : User}
      → get_user_by_name host.fold username s ≡ ok u
      → is_locked now u ≡ true
      → authenticate host service now username password s ≡ (err account_locked, s)
  unfolding authenticate
  authenticate_locked username password s g l = rw (g, authenticate) (rw l)

  -- While a further failure does not reach the threshold, a wrong password answers as an unknown name.
  pub authenticate_uniform :
      (username other password : Str) (s : JsonStore) {u : User}
      → get_user_by_name host.fold username s ≡ ok u
      → get_user_by_name host.fold other s ≡ err not_found
      → is_locked now u ≡ false
      → verify_credentials host now u password ≡ false
      → u.failed_login_attempts + 1 < service.lockout_threshold
      → (authenticate host service now username password s).0
        ≡ (authenticate host service now other password s).0
  unfolding authenticate record_failure is_locked
  authenticate_uniform username other password s {u} g n l w b = ground (arith, g, n, l, w)

-- With two factors, a password followed by six digits is accepted exactly if both factors verify.
pub verify_credentials-append :
    (host : Host) (now : Time) (u : User) (base code : Str)
    → u.totp_enabled ≡ true
    → length code ≡ 6
    → 0 < length base
    → verify_credentials host now u (base ++ code) ≡ (
        all_digits code
        && (host.verify_password base u.password_hash
            && verify_totp_at host u.totp_secret code now))
unfolding verify_credentials
verify_credentials-append host now u base code t l p =
    let n : length (base ++ code) - 6 ≡ length base = omega (arith, length-append base code) in
    rw (n, take_of_length-append base code, drop_of_length-append base code)
      (ground (arith, length-append base code))
