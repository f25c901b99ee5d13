-- ===== src/Auth/Tokens.antt =====
-- The life of an access token in internal/auth/service.go: issued, validated, revoked.
use cubozoa.Prelude.{
  ℕ, ◌≡◌, refl, ap, ◌∙◌, inl, inr, Bool, false, Option, none, some, Str, str_eq, str_eq_iff,
  str_eq_refl, is_empty, Result, ok, err, any, find, arith, Result-cases,
}
use cubozoa.Prelude.Map.{Map, get, values, IsMap, find-some, find-put, find-remove}
use cubozoa.Host.{Host}
use cubozoa.Store.Models.{Time, User, Session}
use cubozoa.Store.State.{Mem, JsonStore, StoreError, not_found}
use cubozoa.Store.Accounts
use cubozoa.Store.Accounts.{
  get_session_by_token_hash, get_user_by_id, touch_session, delete_session,
}
use cubozoa.Store.Reads.{mem_of_commit}
use cubozoa.Auth.Service.{invalid_credentials}
use cubozoa.Auth.Sessions.{ClientInfo, create_session, validate_token, logout}

-- Sessions are filed under their identities, and no two have one token hash.
pub record SessionsValid (sessions : Map Session) : Type 0 where
  pub is_map : IsMap sessions
  pub filed : (k : Str) (x : Session) → get k sessions ≡ some x → x.id ≡ k
  pub distinct :
      (j k : Str) (x y : Session)
      → get j sessions ≡ some x
      → get k sessions ≡ some y
      → x.token_hash ≡ y.token_hash
      → j ≡ k

abbrev by_hash : Str → Session → Bool
by_hash h sess = str_eq sess.token_hash h

abbrev answer : {V : Type 0} → Option V → Result StoreError V
answer none = err not_found
answer (some x) = ok x

some_of_ok : (o : Option Session) (x : Session) → answer o ≡ ok x → o ≡ some x
some_of_ok o x h = ground arith

session_found :
    (sess : Session) (s : JsonStore)
    → any (by_hash sess.token_hash) (values s.mem.sessions) ≡ false
    → get_session_by_token_hash sess.token_hash (Accounts.create_session sess s).1 ≡ ok sess
unfolding get_session_by_token_hash Accounts.create_session
session_found sess s a =
    ap (λ (m : Mem). answer (find (by_hash sess.token_hash) (values m.sessions)))
      (mem_of_commit _ s)
    ∙ ap answer (find-put (by_hash sess.token_hash) sess.id sess s.mem.sessions a (str_eq_refl _))

user_kept :
    (sess : Session) (id : Str) (s : JsonStore)
    → get_user_by_id id (Accounts.create_session sess s).1 ≡ get_user_by_id id s
unfolding get_user_by_id Accounts.create_session
user_kept sess id s = ap (λ (m : Mem). answer (get id m.users)) (mem_of_commit _ s)

session_gone :
    (sess : Session) (s : JsonStore)
    → SessionsValid s.mem.sessions
    → get sess.id s.mem.sessions ≡ some sess
    → get_session_by_token_hash sess.token_hash (delete_session sess.id s).1 ≡ err not_found
unfolding get_session_by_token_hash delete_session
session_gone sess s h g =
    rw (g, delete_session)
      (ap (λ (m : Mem). answer (find (by_hash sess.token_hash) (values m.sessions)))
          (mem_of_commit _ s)
        ∙ ap answer (
            find-remove (by_hash sess.token_hash) sess.id s.mem.sessions h.is_map
              (λ j y gy e. h.distinct j sess.id y sess gy g ((str_eq_iff _ _).0 e))))

found_sound :
    (hash : Str) (sess : Session) (s : JsonStore)
    → SessionsValid s.mem.sessions
    → get_session_by_token_hash hash s ≡ ok sess
    → (get sess.id s.mem.sessions ≡ some sess) × (sess.token_hash ≡ hash)
unfolding get_session_by_token_hash
found_sound hash sess s h f =
    let found : find (by_hash hash) (values s.mem.sessions) ≡ some sess = some_of_ok _ sess f in
    let (k, g, e) = find-some (by_hash hash) sess s.mem.sessions h.is_map found in
    (ap (λ (x : Str). get x s.mem.sessions) (h.filed k sess g) ∙ g, (str_eq_iff _ _).0 e)

abbrev issued : Host → Time → Str → Str → Str → ClientInfo → Session
issued host now token id user_id info = record {
  id = id;
  user_id = user_id;
  token_hash = host.hash_token token;
  client = info.client;
  device = info.device;
  device_id = info.device_id;
  app_version = info.app_version;
  remote_addr = info.remote_addr;
  created_at = now;
  last_activity = now;
}

module _ (host : Host) where
  -- A token that was just issued validates to its user and its session, if its hash is new and the
  -- user exists. It does not matter whether the session reached the file.
  pub validate_token-create_session :
      (now later : ℕ) (token id user_id : Str) (info : ClientInfo) (s : JsonStore) {u : User}
      → is_empty token ≡ false
      → any (by_hash (host.hash_token token)) (values s.mem.sessions) ≡ false
      → get_user_by_id user_id s ≡ ok u
      → (sess : Session) × ((validate_token host later token
            (create_session host now (some token) (some id) user_id info s).1).0
          ≡ ok (u, sess))
        × (sess.id ≡ id)
        × (sess.token_hash ≡ host.hash_token token)
  unfolding create_session validate_token
  validate_token-create_session now later token id user_id info s t a g =
      let sess = issued host now token id user_id info in
      (sess, ground (arith, session_found sess s a, user_kept sess user_id s), refl, refl)

  -- After a logout the token validates no more.
  pub validate_token-logout :
      (later : ℕ) (token : Str) (s : JsonStore)
      → SessionsValid s.mem.sessions
      → (validate_token host later token (logout host token s).1).0 ≡ err invalid_credentials
  unfolding logout validate_token
  validate_token-logout later token s h =
      elim (Result-cases (get_session_by_token_hash (host.hash_token token) s)) [
        | inl (e, f) ↦ ground (arith, f)
        | inr (sess, f) ↦
            let (g, same) = found_sound _ sess s h f in
            let gone : get_session_by_token_hash (host.hash_token token)
                  (delete_session sess.id s).1
                ≡ err not_found =
              rw (← same) (session_gone sess s h g) in
            ground (arith, f, gone)
      ]
