-- ===== src/Auth/Sessions.antt =====
-- Access tokens in internal/auth/service.go. The store keeps only a token's hash.
use cubozoa.Prelude.{Option, none, some, Str, is_empty, Result, ok, err, if◌then◌else◌}
use cubozoa.Host.{Host}
use cubozoa.Store.Models.{Time, User, Session}
use cubozoa.Store.State.{JsonStore, StoreError}
use cubozoa.Store.Accounts
use cubozoa.Auth.Service.{AuthError, invalid_credentials, no_random, store_error}

pub record IssuedToken : Type 0 where
  pub token : Str
  pub session : Session

-- What a client says of itself.
pub record ClientInfo : Type 0 where
  pub client : Str
  pub device : Str
  pub device_id : Str
  pub app_version : Str
  pub remote_addr : Str

-- `CreateSession`: `token` and `id` are what `NewToken` and `NewID` return.
unfoldable pub create_session :
    Host
    → Time
    → Option Str
    → Option Str
    → Str
    → ClientInfo
    → JsonStore
    → Result AuthError IssuedToken × JsonStore
create_session host now none id user_id info s = (err no_random, s)
create_session host now (some token) none user_id info s = (err no_random, s)
create_session host now (some token) (some id) user_id info s =
    let sess : Session = record {
      id = id;
      user_id = user_id;
      token_hash = host.hash_token token;
      client = info.client;
      device = info.device;
      device_id = info.device_id;
      app_version = info.app_version;
      remote_addr = info.remote_addr;
      created_at = now;
      last_activity = now;
    } in
    let done = Accounts.create_session sess s in
    (
      elim done.0 [
        | ok _ ↦ ok (record { token = token; session = sess })
        | err e ↦ err (store_error e)
      ],
      done.1,
    )

-- A failed touch is ignored.
unfoldable pub validate_token :
    Host → Time → Str → JsonStore → Result AuthError (User × Session) × JsonStore
validate_token host now token s =
    if is_empty token
    then (err invalid_credentials, s)
    else elim (Accounts.get_session_by_token_hash (host.hash_token token) s) [
      | err _ ↦ (err invalid_credentials, s)
      | ok sess ↦ elim (Accounts.get_user_by_id sess.user_id s) [
        | err _ ↦ (err invalid_credentials, s)
        | ok u ↦ (ok (u, sess), (Accounts.touch_session now sess.id s).1)
      ]
    ]

-- Unknown tokens are a no-op.
unfoldable pub logout : Host → Str → JsonStore → Result StoreError Unit × JsonStore
logout host token s =
    if is_empty token
    then (ok tt, s)
    else elim (Accounts.get_session_by_token_hash (host.hash_token token) s) [
      | err _ ↦ (ok tt, s)
      | ok sess ↦ Accounts.delete_session sess.id s
    ]
