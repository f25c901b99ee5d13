-- ===== src/Server/Admission.antt =====
-- Who gets through the middleware of internal/server, and what a login tells of an account.
use cubozoa.Prelude.{
  ◌≡◌, refl, ap, inl, inr, Bool, true, false, Option, none, some, ◌++◌, Str, str_eq, codes,
  is_empty, Result, ok, err, any, arith, Bool-cases, Option-cases, Result-cases,
}
use cubozoa.Prelude.Map.{get, values}
use cubozoa.Host.{Host}
use cubozoa.Store.Models.{Time, User, Session}
use cubozoa.Store.State.{Mem, JsonStore, StoreError, not_found}
use cubozoa.Store.Accounts.{get_user_by_name, get_user_by_id, update_user}
use cubozoa.Store.Reads.{mem_of_commit, get_user_by_name-eq-ok}
use cubozoa.Auth.Service.{Service, is_locked, verify_credentials, authenticate}
use cubozoa.Auth.Lockout.{Stored, update_user-Stored}
use cubozoa.Auth.Sessions.{create_session, validate_token}
use cubozoa.Auth.Tokens.{validate_token-create_session}
use cubozoa.Jellyfin.AuthHeader.{parse_client_auth}
use cubozoa.Server.ClientIp.{client_ip}
use cubozoa.Server.RateLimit.{allow}
use cubozoa.Server.Login.{
  HttpRequest, World, Context, Handler, client_info, handle_authenticate_by_name, with_auth_context,
  serve, require_auth, require_admin,
}

module _ (host : Host) where
  -- An administrator's handler is reached only with a token that validates to an administrator: with any
  -- other request the answer and the state do not depend on the handler.
  pub require_admin_blocks :
      (now : Time) (r : HttpRequest) (next other : Handler) (w : World)
      → ((u : User) (sess : Session)
          → (validate_token host now (parse_client_auth host r.auth).token w.store).0 ≡ ok (u, sess)
          → u.is_admin ≡ false)
      → serve host now r (require_admin next) w ≡ serve host now r (require_admin other) w
  unfolding serve require_admin require_auth
  require_admin_blocks now r next other w h =
      let token = (parse_client_auth host r.auth).token in
      elim (Bool-cases (is_empty token)) [
        | inl e ↦ rw e refl
        | inr e ↦ elim (Result-cases (validate_token host now token w.store).0) [
          | inl (x, f) ↦ rw (e, f) refl
          | inr ((u, sess), f) ↦ rw (e, f, h u sess f) refl
        ]
      ]

  -- A login tells a locked account and an unknown name apart neither by its status nor by its body, if
  -- the two come from one client.
  pub login_uniform :
      (service : Service) (trusted : Bool) (now : Time) (token id : Option Str) (ctx : Context)
      (r : HttpRequest) (name unknown pw : Str) (w : World) {u : User}
      → get_user_by_name host.fold name w.store ≡ ok u
      → is_locked now u ≡ true
      → get_user_by_name host.fold unknown w.store ≡ err not_found
      → (handle_authenticate_by_name host service trusted now token id
          (record r { body = some (record { username = name; pw = pw }) })
          ctx
          w).0
        ≡ (handle_authenticate_by_name host service trusted now token id
            (record r { body = some (record { username = unknown; pw = pw }) })
            ctx
            w).0
  unfolding handle_authenticate_by_name authenticate
  login_uniform service trusted now token id ctx r name unknown pw w {u} g l n =
      ground (arith, g, l, n)

  authenticate_accepts :
      (service : Service) (now : Time) (name pw : Str) (s : JsonStore) (u : User)
      → get_user_by_name host.fold name s ≡ ok u
      → is_locked now u ≡ false
      → verify_credentials host now u pw ≡ true
      → authenticate host service now name pw s ≡ (
        ok (record u { failed_login_attempts = 0; locked_until = 0; last_login_at = now }),
        (update_user
            (record u { failed_login_attempts = 0; locked_until = 0; last_login_at = now })
            s).1,
      )
  unfolding authenticate
  authenticate_accepts service now name pw s u g l v = ground (arith, g, l, v)

update_user-sessions :
    (v : User) (s : JsonStore) → (update_user v s).1.mem.sessions ≡ s.mem.sessions
unfolding update_user
update_user-sessions v s = elim (Option-cases (get v.id s.mem.users)) [
  | inl e ↦ rw (e, update_user) refl
  | inr (old, e) ↦ rw (e, update_user) (ap (λ (m : Mem). m.sessions) (mem_of_commit _ s))
]

abbrev answer : Option User → Result StoreError User
answer none = err not_found
answer (some u) = ok u

found_by_id :
    (id : Str) (s : JsonStore) (u : User) → get id s.mem.users ≡ some u → get_user_by_id id s ≡ ok u
unfolding get_user_by_id
found_by_id id s u g = ap answer g

-- The user after a login at `now`.
abbrev pub logged_in : Time → User → User
logged_in now u = record u { failed_login_attempts = 0; locked_until = 0; last_login_at = now }

module _ (host : Host) (service : Service) (trusted : Bool) (now later : Time) where
  enters :
      (token id : Str) (ctx : Context) (r r' : HttpRequest) (name pw : Str) (w : World) (u : User)
      (sess : Session)
      → (parse_client_auth host r'.auth).token ≡ token
      → (allow now (codes "auth:" ++ client_ip r.peer trusted) w.limiter).0 ≡ true
      → authenticate host service now name pw w.store
        ≡ (ok (logged_in now u), (update_user (logged_in now u) w.store).1)
      → is_empty token ≡ false
      → (validate_token host later token
          (create_session host now
            (some token)
            (some id)
            u.id
            (client_info ctx.client_auth (client_ip r.peer trusted))
            (update_user (logged_in now u) w.store).1).1).0
        ≡ ok (logged_in now u, sess)
      → (with_auth_context host later r'
          (handle_authenticate_by_name host service trusted now
            (some token)
            (some id)
            (record r { body = some (record { username = name; pw = pw }) })
            ctx
            w).1.store).0.user
        ≡ some (logged_in now u)
  unfolding handle_authenticate_by_name with_auth_context
  enters token id ctx r r' name pw w u sess t a auth e v = ground (arith, t, a, auth, e, v)

  -- A login round trip: valid credentials of an account that is not locked give a session, and a later
  -- request that carries the token enters as that user, if the limiter lets the login through and the
  -- token's hash is new. It does not matter whether the writes to the file succeeded.
  pub login_enters :
      (token id : Str) (ctx : Context) (r r' : HttpRequest) (name pw : Str) (w : World) (u : User)
      → (parse_client_auth host r'.auth).token ≡ token
      → (allow now (codes "auth:" ++ client_ip r.peer trusted) w.limiter).0 ≡ true
      → Stored host.fold name u w.store
      → is_locked now u ≡ false
      → verify_credentials host now u pw ≡ true
      → is_empty token ≡ false
      → any
          (λ (x : Session). str_eq x.token_hash (host.hash_token token))
          (values w.store.mem.sessions)
        ≡ false
      → (with_auth_context host later r'
          (handle_authenticate_by_name host service trusted now
            (some token)
            (some id)
            (record r { body = some (record { username = name; pw = pw }) })
            ctx
            w).1.store).0.user
        ≡ some (logged_in now u)
  login_enters token id ctx r r' name pw w u t a h l v e fresh =
      let v' = logged_in now u in
      let s' = (update_user v' w.store).1 in
      let kept = update_user-Stored host.fold name u v' w.store h refl refl in
      let new : any (λ (x : Session). str_eq x.token_hash (host.hash_token token))
            (values s'.mem.sessions)
          ≡ false =
        rw (update_user-sessions v' w.store) fresh in
      let (sess, valid, same_id, same_hash) =
        validate_token-create_session host now later token id u.id
          (client_info ctx.client_auth (client_ip r.peer trusted)) s' e new
          (found_by_id u.id s' v' kept.kept) in
      enters token id ctx r r' name pw w u sess t a
        (authenticate_accepts host service now name pw w.store u
          (get_user_by_name-eq-ok host.fold w.store u.id name u h.valid h.kept h.named) l v)
        e valid
