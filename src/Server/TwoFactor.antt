-- ===== src/Server/TwoFactor.antt =====
-- internal/server/handlers_2fa.go: the requests that set up, confirm, remove and recover a second factor.
use cubozoa.Prelude.{
  Bool, not, Option, none, some, List, ◌++◌, Str, codes, Result, ok, err, if◌then◌else◌,
}
use cubozoa.Host.{Host}
use cubozoa.Store.Models.{Time}
use cubozoa.Auth.Service.{
  Service, AuthError, totp_invalid_code, totp_already_enabled, totp_not_enabled, no_pending_totp,
}
use cubozoa.Auth.TwoFactor.{
  totp_enabled, begin_totp_setup, activate_totp, disable_totp, recover_totp,
}
use cubozoa.Server.ClientIp
use cubozoa.Server.ClientIp.{client_ip}
use cubozoa.Server.RateLimit.{allow}
use cubozoa.Server.Login.{Response, Handler, enabled_body, secret_body, recovery_codes_body, reply}
use cubozoa.Server.Users.{show, with_user}

unfoldable pub handle_2fa_status : Handler
handle_2fa_status = with_user (λ caller w. elim (totp_enabled caller.id w.store) [
  | err _ ↦ (reply 500, w)
  | ok enabled ↦ (show (enabled_body enabled), w)
])

unfoldable pub setup_status : Result AuthError Str → Response
setup_status (ok secret) = show (secret_body secret)
setup_status (err totp_already_enabled) = reply 409
setup_status (err _) = reply 500

unfoldable pub handle_2fa_setup : Option Str → Handler
unfolding setup_status
handle_2fa_setup secret = with_user (λ caller w.
    let done = begin_totp_setup secret caller.id w.store in
    (setup_status done.0, record w { store = done.1 }))

unfoldable pub activate_status : Result AuthError (List Str) → Response
activate_status (ok drawn) = show (recovery_codes_body drawn)
activate_status (err totp_invalid_code) = reply 401
activate_status (err no_pending_totp) = reply 409
activate_status (err totp_already_enabled) = reply 409
activate_status (err _) = reply 500

unfoldable pub disable_status : Result AuthError Unit → Response
disable_status (ok _) = reply 204
disable_status (err totp_invalid_code) = reply 401
disable_status (err totp_not_enabled) = reply 409
disable_status (err _) = reply 500

-- The body of a recovery.
pub record RecoverRequest : Type 0 where
  pub username : Str
  pub pw : Str
  pub recovery_code : Str

-- A body is `none` where it is too long or malformed. What the handlers audit is left out.
module _ (host : Host) where
  unfoldable pub handle_2fa_activate : Time → Option (List Str) → Option Str → Handler
  unfolding activate_status
  handle_2fa_activate now drawn body ctx w = elim body [
    | none ↦ (reply 400, w)
    | some code ↦
        with_user
          (λ caller w.
            let done = activate_totp host now drawn caller.id code w.store in
            (activate_status done.0, record w { store = done.1 }))
          ctx w
  ]

  unfoldable pub handle_2fa_disable : Time → Option Str → Handler
  unfolding disable_status
  handle_2fa_disable now body ctx w = elim body [
    | none ↦ (reply 400, w)
    | some code ↦
        with_user
          (λ caller w.
            let done = disable_totp host now caller.id code w.store in
            (disable_status done.0, record w { store = done.1 }))
          ctx w
  ]

  -- Every failure is one answer.
  unfoldable pub handle_2fa_recover :
      Service → Bool → Time → ClientIp.Request → Option RecoverRequest → Handler
  handle_2fa_recover service trusted now peer body ctx w =
      let gate = allow now (codes "2fa-recover:" ++ client_ip peer trusted) w.limiter in
      let counted = record w { limiter = gate.1 } in
      if not gate.0 then (reply 429, counted) else elim body [
        | none ↦ (reply 400, counted)
        | some req ↦
            let done =
              recover_totp host service now req.username req.pw req.recovery_code w.store in
            (
              elim done.0 [ err _ ↦ reply 401 | ok _ ↦ reply 204 ],
              record counted { store = done.1 },
            )
      ]
