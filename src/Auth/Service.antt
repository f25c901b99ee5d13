-- ===== src/Auth/Service.antt =====
-- internal/auth/service.go: accounts, credentials and the lockout policy. A call reads the clock once,
-- as `now`; what it logs is left out.
use cubozoa.Prelude.{
  ℕ, ◌+◌, ◌-◌, Bool, true, false, not, ◌&&◌, Option, none, some, [], ◌∷◌, length, take, drop, Str,
  is_empty, Result, ok, err, ltb, leb, ◌==◌, if◌then◌else◌,
}
use cubozoa.Host.{Host}
use cubozoa.Store.Models.{Time, User}
use cubozoa.Store.State.{JsonStore, StoreError, not_found, conflict}
use cubozoa.Store.Accounts
use cubozoa.Security.Totp.{verify_totp_at}

pub data AuthError : Type 0 where
  invalid_credentials account_locked : AuthError
  empty_username short_password user_exists no_random : AuthError
  totp_not_enabled totp_already_enabled no_pending_totp totp_invalid_code : AuthError
  store_error : StoreError → AuthError

-- The lockout policy of `Service`; a threshold of 0 stands for every threshold that is not positive.
pub record Service : Type 0 where
  pub lockout_threshold : ℕ
  pub lockout_duration : ℕ

-- 15 minutes, in nanoseconds.
abbrev default_service : Service
default_service = record { lockout_threshold = 5; lockout_duration = 900_000_000_000 }

unfoldable set_lockout_policy : ℕ → ℕ → Service → Service
set_lockout_policy threshold duration service = record {
  lockout_threshold = threshold;
  lockout_duration = if ltb 0 duration then duration else service.lockout_duration;
}

-- `CreateUser`: `hash` is what `HashPassword` returns, `id` what `NewID` returns.
unfoldable pub create_user :
    Host
    → Time
    → Option Str
    → Option Str
    → Str
    → Str
    → Bool
    → JsonStore
    → Result AuthError Unit × JsonStore
unfolding Accounts.create_user
create_user host now hash id username password admin s =
    let name = host.trim_space username in
    if is_empty name
    then (err empty_username, s)
    else if ltb (length password) 8
    then (err short_password, s)
    else elim hash [
      | none ↦ (err no_random, s)
      | some h ↦ elim id [
        | none ↦ (err no_random, s)
        | some i ↦
            let done =
              Accounts.create_user host.fold
                (record {
                  id = i;
                  name = name;
                  password_hash = h;
                  is_admin = admin;
                  created_at = now;
                  last_login_at = 0;
                  failed_login_attempts = 0;
                  locked_until = 0;
                  totp_enabled = false;
                  totp_secret = [];
                  pending_totp_secret = [];
                  recovery_code_hashes = [];
                })
                s in
            (
              elim done.0 [
                | ok _ ↦ ok tt
                | err conflict ↦ err user_exists
                | err e ↦ err (store_error e)
              ],
              done.1,
            )
      ]
    ]

-- `SeedAdmin`: `generated` is what `generatePassword` returns. The result is the password to show, if
-- one was made, and whether an account was created.
unfoldable seed_admin :
    Host
    → Time
    → Option Str
    → Option Str
    → Option Str
    → Str
    → Str
    → JsonStore
    → Result AuthError (Str × Bool) × JsonStore
unfolding create_user Accounts.count_users
seed_admin host now hash id generated username password s =
    if ltb 0 (Accounts.count_users s)
    then (ok ([], false), s)
    else elim (if is_empty password then generated else some password) [
      | none ↦ (err no_random, s)
      | some chosen ↦
          let done = create_user host now hash id username chosen true s in
          (
            elim done.0 [
              | ok _ ↦ ok (if is_empty password then chosen else [], true)
              | err e ↦ err e
            ],
            done.1,
          )
    ]

unfoldable pub is_locked : Time → User → Bool
is_locked now u = not (u.locked_until == 0) && ltb now u.locked_until

-- The loop of `allDigits`.
unfoldable digits_only : Str → Bool
digits_only [] = true
digits_only (c ∷ r) = leb b'0' c && leb c b'9' && digits_only r

unfoldable pub all_digits : Str → Bool
unfolding digits_only
all_digits s = digits_only s && ltb 0 (length s)

-- For a two-factor account the last six bytes are the code and the rest is the password.
unfoldable pub verify_credentials : Host → Time → User → Str → Bool
verify_credentials host now u password =
    let split = length password - 6 in
    if not u.totp_enabled
    then host.verify_password password u.password_hash
    else if leb (length password) 6
    then false
    else if not (all_digits (drop split password))
    then false
    else if not (host.verify_password (take split password) u.password_hash)
    then false
    else verify_totp_at host u.totp_secret (drop split password) now

-- `recordFailure`: the user as the caller goes on to see it, and the store.
unfoldable pub record_failure : Service → Time → User → JsonStore → User × JsonStore
unfolding Accounts.update_user
record_failure service now u s =
    let failures = u.failed_login_attempts + 1 in
    let counted = record u {
      failed_login_attempts = failures;
      locked_until =
          if leb service.lockout_threshold failures
          then now + service.lockout_duration
          else u.locked_until;
    } in
    if service.lockout_threshold == 0 then (u, s) else (counted, (Accounts.update_user counted s).1)

-- A success clears the failures; an update that fails is logged, and the login stands.
unfoldable pub authenticate :
    Host → Service → Time → Str → Str → JsonStore → Result AuthError User × JsonStore
authenticate host service now username password s =
    elim (Accounts.get_user_by_name host.fold username s) [
      | err not_found ↦ (err invalid_credentials, s)
      | err e ↦ (err (store_error e), s)
      | ok u ↦
          let failed = record_failure service now u s in
          let cleared = record u {
            failed_login_attempts = 0;
            locked_until = 0;
            last_login_at = now;
          } in
          if is_locked now u
          then (err account_locked, s)
          else if not (verify_credentials host now u password)
          then (if is_locked now failed.0
              then (err account_locked, failed.1)
              else (err invalid_credentials, failed.1))
          else (ok cleared, (Accounts.update_user cleared s).1)
    ]
