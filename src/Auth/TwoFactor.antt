-- ===== src/Auth/TwoFactor.antt =====
-- internal/auth/totp.go: enrolment, recovery and removal of the second factor.
use cubozoa.Prelude.{
  Bool, true, false, not, Option, none, some, List, [], ◌∷◌, map, Str, is_empty, str_eq, Result, ok,
  err, if◌then◌else◌,
}
use cubozoa.Host.{Host}
use cubozoa.Store.Models.{Time, User}
use cubozoa.Store.State.{JsonStore, not_found}
use cubozoa.Store.Accounts
use cubozoa.Security.Totp.{verify_totp_at}
use cubozoa.Auth.Service.{
  Service, AuthError, invalid_credentials, account_locked, no_random, totp_not_enabled,
  totp_already_enabled, no_pending_totp, totp_invalid_code, store_error, is_locked, record_failure,
}

-- `s.store.UpdateUser(u)`, and the value that a success returns.
abbrev pub saving : {A : Type 0} → User → A → JsonStore → Result AuthError A × JsonStore
saving u a s =
    let done = Accounts.update_user u s in
    (elim done.0 [ ok _ ↦ ok a | err e ↦ err (store_error e) ], done.1)

-- `BeginTOTPSetup`: `secret` is what `NewTOTPSecret` returns. The result is the secret; the URI
-- beside it only spells the secret for an authenticator app.
unfoldable pub begin_totp_setup : Option Str → Str → JsonStore → Result AuthError Str × JsonStore
begin_totp_setup secret user_id s = elim (Accounts.get_user_by_id user_id s) [
  | err e ↦ (err (store_error e), s)
  | ok u ↦ if u.totp_enabled then (err totp_already_enabled, s) else elim secret [
    | none ↦ (err no_random, s)
    | some fresh ↦ saving (record u { pending_totp_secret = fresh }) fresh s
  ]
]

-- `ActivateTOTP`: `codes` are the recovery codes that `NewRecoveryCodes` draws.
unfoldable pub activate_totp :
    Host
    → Time
    → Option (List Str)
    → Str
    → Str
    → JsonStore
    → Result AuthError (List Str) × JsonStore
activate_totp host now codes user_id code s = elim (Accounts.get_user_by_id user_id s) [
  | err e ↦ (err (store_error e), s)
  | ok u ↦
      if u.totp_enabled
      then (err totp_already_enabled, s)
      else if is_empty u.pending_totp_secret
      then (err no_pending_totp, s)
      else if not (verify_totp_at host u.pending_totp_secret code now)
      then (err totp_invalid_code, s)
      else elim codes [
        | none ↦ (err no_random, s)
        | some drawn ↦
            saving
              (record u {
                totp_secret = u.pending_totp_secret;
                pending_totp_secret = [];
                totp_enabled = true;
                recovery_code_hashes = map host.hash_token drawn;
              })
              drawn s
      ]
]

-- The loop of `consumeRecoveryCode`: the list without the first entry that matches.
unfoldable pub take_out : Str → List Str → Option (List Str)
take_out want [] = none
take_out want (h ∷ hs) =
    let rest = take_out want hs in
    if str_eq h want then some hs else elim rest [ none ↦ none | some left ↦ some (h ∷ left) ]

-- `none` is the answer `false`, which leaves the user as it was.
unfoldable pub consume_recovery_code : Host → User → Str → Option User
unfolding take_out
consume_recovery_code host u code =
    let left = take_out (host.hash_token code) u.recovery_code_hashes in
    if is_empty code
    then none
    else elim left [ none ↦ none | some hs ↦ some (record u { recovery_code_hashes = hs }) ]

unfoldable pub clear_totp : User → User
clear_totp u = record u {
  totp_enabled = false;
  totp_secret = [];
  pending_totp_secret = [];
  recovery_code_hashes = [];
}

unfoldable pub disable_totp :
    Host → Time → Str → Str → JsonStore → Result AuthError Unit × JsonStore
disable_totp host now user_id code s = elim (Accounts.get_user_by_id user_id s) [
  | err e ↦ (err (store_error e), s)
  | ok u ↦
      if not u.totp_enabled
      then (err totp_not_enabled, s)
      else if verify_totp_at host u.totp_secret code now
      then saving (clear_totp u) tt s
      else elim (consume_recovery_code host u code) [
        | none ↦ (err totp_invalid_code, s)
        | some left ↦ saving (clear_totp left) tt s
      ]
]

unfoldable pub recover_totp :
    Host → Service → Time → Str → Str → Str → JsonStore → Result AuthError Unit × JsonStore
recover_totp host service now username password code s =
    elim (Accounts.get_user_by_name host.fold username s) [
      | err not_found ↦ (err invalid_credentials, s)
      | err e ↦ (err (store_error e), s)
      | ok u ↦
          let failed = (record_failure service now u s).1 in
          if is_locked now u
          then (err account_locked, s)
          else if not (host.verify_password password u.password_hash)
          then (err invalid_credentials, failed)
          else if not u.totp_enabled
          then (err totp_not_enabled, s)
          else elim (consume_recovery_code host u code) [
            | none ↦ (err totp_invalid_code, failed)
            | some left ↦ saving (record (clear_totp left) { failed_login_attempts = 0 }) tt s
          ]
    ]

unfoldable pub totp_enabled : Str → JsonStore → Result AuthError Bool
totp_enabled user_id s = elim (Accounts.get_user_by_id user_id s) [
  | err e ↦ err (store_error e)
  | ok u ↦ ok u.totp_enabled
]
