-- ===== src/Server/Login.antt =====
-- internal/server/handlers_auth.go, middleware.go and context.go: a login, and how a later request is
-- let through. What the handlers log or audit, and the other headers of a response, are left out.
use cubozoa.Prelude.{
  ℕ, Bool, not, Option, none, some, List, ◌++◌, Str, codes, is_empty, ok, err, if◌then◌else◌,
}
use cubozoa.Host.{Host}
use cubozoa.Store.Models.{Time, User, Session, MediaItem, UserItemData}
use cubozoa.Store.State.{JsonStore}
use cubozoa.Auth.Service.{Service, invalid_credentials, account_locked, authenticate}
use cubozoa.Auth.Sessions.{ClientInfo, IssuedToken, create_session, validate_token, logout}
use cubozoa.Jellyfin.AuthHeader
use cubozoa.Jellyfin.AuthHeader.{ClientAuth, parse_client_auth}
use cubozoa.Server.ClientIp
use cubozoa.Server.ClientIp.{client_ip}
use cubozoa.Server.RateLimit.{RateLimiter, allow}

pub record Credentials : Type 0 where
  pub username : Str
  pub pw : Str

-- `body` is the decoded body, `none` where it is absent, too long or malformed.
pub record HttpRequest : Type 0 where
  pub auth : AuthHeader.Request
  pub peer : ClientIp.Request
  pub body : Option Credentials

-- What a handler shows. An item comes with the caller's data of it.
pub data Body : Type 0 where
  no_body : Body
  login_body : User → IssuedToken → Body
  user_body : User → Body
  users_body : List User → Body
  public_body : List (Str × Str) → Body
  user_data_body : UserItemData → Body
  item_body : MediaItem → UserItemData → Body
  items_body : List (MediaItem × Option UserItemData) → ℕ → Body
  enabled_body : Bool → Body
  secret_body : Str → Body
  recovery_codes_body : List Str → Body
  playlist_body : Str → Body
  -- the file at a path, with its content type
  file_body : Str → Str → Body

pub record Response : Type 0 where
  pub status : ℕ
  pub body : Body

-- What the handlers share.
pub record World : Type 0 where
  pub limiter : RateLimiter
  pub store : JsonStore

abbrev pub reply : ℕ → Response
reply status = record { status = status; body = no_body }

-- What `withAuthContext` puts into a request's context.
pub record Context : Type 0 where
  pub client_auth : ClientAuth
  pub user : Option User
  pub session : Option Session

abbrev pub Handler : Type 0
Handler = Context → World → Response × World

abbrev pub client_info : ClientAuth → Str → ClientInfo
client_info ca ip = record {
  client = ca.client;
  device = ca.device;
  device_id = ca.device_id;
  app_version = ca.version;
  remote_addr = ip;
}

module _ (host : Host) where
  -- `token` and `id` are what the random source gives to `CreateSession`.
  unfoldable pub handle_authenticate_by_name :
      Service → Bool → Time → Option Str → Option Str → HttpRequest → Handler
  handle_authenticate_by_name service trusted now token id r ctx w =
      let ip = client_ip r.peer trusted in
      let gate = allow now (codes "auth:" ++ ip) w.limiter in
      let counted = record w { limiter = gate.1 } in
      if not gate.0 then (reply 429, counted) else elim r.body [
        | none ↦ (reply 400, counted)
        | some req ↦
            let tried = authenticate host service now req.username req.pw w.store in
            let after = record counted { store = tried.1 } in
            elim tried.0 [
              | err account_locked ↦ (reply 401, after)
              | err invalid_credentials ↦ (reply 401, after)
              | err _ ↦ (reply 500, after)
              | ok user ↦
                  let made =
                    create_session host now token id user.id (client_info ctx.client_auth ip)
                      tried.1 in
                  (
                    elim made.0 [
                      | err _ ↦ reply 500
                      | ok issued ↦ record { status = 200; body = login_body user issued }
                    ],
                    record after { store = made.1 },
                  )
            ]
      ]

  -- Whether the store could delete the session does not change the answer.
  unfoldable pub handle_logout : Handler
  handle_logout ctx w =
      (reply 204, record w { store = (logout host ctx.client_auth.token w.store).1 })

  unfoldable pub with_auth_context : Time → HttpRequest → JsonStore → Context × JsonStore
  with_auth_context now r s =
      let ca = parse_client_auth host r.auth in
      let anonymous : Context = record { client_auth = ca; user = none; session = none } in
      let found = validate_token host now ca.token s in
      if is_empty ca.token then (anonymous, s) else (
        elim found.0 [
          | err _ ↦ anonymous
          | ok (user, sess) ↦ record { client_auth = ca; user = some user; session = some sess }
        ],
        found.1,
      )

  -- A request through the middleware to its handler.
  unfoldable pub serve : Time → HttpRequest → Handler → World → Response × World
  unfolding with_auth_context
  serve now r next w =
      let entered = with_auth_context now r w.store in
      next entered.0 (record w { store = entered.1 })

unfoldable pub require_auth : Handler → Handler
require_auth next ctx w = elim ctx.user [ none ↦ (reply 401, w) | some _ ↦ next ctx w ]

unfoldable pub require_admin : Handler → Handler
unfolding require_auth
require_admin next = require_auth (λ ctx w. elim ctx.user [
  | none ↦ (reply 403, w)
  | some u ↦ if not u.is_admin then (reply 403, w) else next ctx w
])
