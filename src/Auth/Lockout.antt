-- ===== src/Auth/Lockout.antt =====
-- The lockout of internal/auth/service.go over a run of wrong passwords.
use cubozoa.Prelude.{
  ◌+◌, ◌≤◌, ◌<◌, ◌≡◌, refl, ap, sym, ◌∙◌, false, some, List, [], ◌∷◌, ◌++◌, length, Str,
  str_eq_refl, err, leb, if◌then◌else◌, arith, All,
}
use cubozoa.Prelude.Map.{get, get-put}
use cubozoa.Host.{Host}
use cubozoa.Store.Models.{Time, User}
use cubozoa.Store.State.{JsonStore}
use cubozoa.Store.Accounts.{update_user}
use cubozoa.Store.Invariant.{UsersValid, put_same-UsersValid}
use cubozoa.Store.Reads.{get_user_by_name-eq-ok, mem_of_commit}
use cubozoa.Auth.Access.{authenticate_locked}
use cubozoa.Auth.Service.{
  Service, account_locked, is_locked, verify_credentials, record_failure, authenticate,
}

-- A login attempt: its time and its password.
abbrev Attempt : Type 0
Attempt = Time × Str

module _ (fold : Str → Str) where
  -- A stored user, found under any spelling of the name.
  pub record Stored (username : Str) (u : User) (s : JsonStore) : Type 0 where
    pub valid : UsersValid fold s.mem.users
    pub kept : get u.id s.mem.users ≡ some u
    pub named : fold u.name ≡ fold username

  -- An update that keeps identity and name is what the next lookup finds, its write failing or not.
  pub update_user-Stored :
      (username : Str) (u v : User) (s : JsonStore)
      → Stored username u s
      → v.id ≡ u.id
      → v.name ≡ u.name
      → Stored username v (update_user v s).1
  unfolding update_user
  update_user-Stored username u v s h i n =
      let old : get v.id s.mem.users ≡ some u = ap (λ (k : Str). get k s.mem.users) i ∙ h.kept in
      rw (old, update_user)
        (record {
          valid =
              rw (mem_of_commit _ s)
                (put_same-UsersValid fold v u s.mem.users old (ap fold (sym n)) h.valid);
          kept =
              rw (mem_of_commit _ s)
                (ground (arith, get-put v.id v.id v s.mem.users, str_eq_refl v.id));
          named = ap fold n ∙ h.named;
        })

module _ (host : Host) (service : Service) (username : Str) where
  -- The store after a run of attempts.
  abbrev pub attempt_all : List Attempt → JsonStore → JsonStore
  attempt_all [] s = s
  attempt_all ((now, password) ∷ rest) s =
      attempt_all rest (authenticate host service now username password s).1

  -- The user after `n` failures from `u`, the last one at `now`.
  abbrev pub failed : Time → User → User
  failed now u = record u {
    failed_login_attempts = u.failed_login_attempts + 1;
    locked_until =
        if leb service.lockout_threshold (u.failed_login_attempts + 1)
        then now + service.lockout_duration
        else u.locked_until;
  }

  authenticate_wrong :
      (now : Time) (password : Str) (u : User) (s : JsonStore)
      → 0 < service.lockout_threshold
      → Stored host.fold username u s
      → is_locked now u ≡ false
      → verify_credentials host now u password ≡ false
      → (authenticate host service now username password s).1 ≡ (update_user (failed now u) s).1
  unfolding authenticate record_failure
  authenticate_wrong now password u s t h l w =
      ground
        (arith, get_user_by_name-eq-ok host.fold s u.id username u h.valid h.kept h.named, l, w)

  attempt-Stored :
      (now : Time) (password : Str) (u : User) (s : JsonStore)
      → 0 < service.lockout_threshold
      → Stored host.fold username u s
      → is_locked now u ≡ false
      → verify_credentials host now u password ≡ false
      → Stored host.fold username
          (failed now u)
          (authenticate host service now username password s).1
  attempt-Stored now password u s t h l w =
      rw (authenticate_wrong now password u s t h l w)
        (update_user-Stored host.fold username u (failed now u) s h refl refl)

  -- Every attempt of the run has wrong credentials.
  abbrev AllWrong : User → List Attempt → Type 0
  AllWrong u = All (λ a. verify_credentials host a.0 u a.1 ≡ false)

  -- The user once the threshold is reached at time `t`.
  abbrev locked_at : Time → User → User
  locked_at t u = record u {
    failed_login_attempts = service.lockout_threshold;
    locked_until = t + service.lockout_duration;
  }

  run-Stored :
      (attempts : List Attempt) (t : Time) (p : Str) (u : User) (s : JsonStore)
      → Stored host.fold username u s
      → u.locked_until ≡ 0
      → u.failed_login_attempts + length attempts + 1 ≡ service.lockout_threshold
      → AllWrong u (attempts ++ (t, p) ∷ [])
      → Stored host.fold username (locked_at t u) (attempt_all (attempts ++ (t, p) ∷ []) s)
  unfolding is_locked verify_credentials
  run-Stored [] t p u s h z n (w, _) =
      let e : failed t u ≡ locked_at t u = ground arith in
      rw (← e) (attempt-Stored t p u s (omega arith) h (ground arith) w)
  run-Stored ((now, q) ∷ rest) t p u s h z n (w, ws) =
      let e : failed now u ≡ record u { failed_login_attempts = u.failed_login_attempts + 1 } =
        ground arith in
      run-Stored rest t p (record u { failed_login_attempts = u.failed_login_attempts + 1 }) _
        (rw (← e) (attempt-Stored now q u s (omega arith) h (ground arith) w)) z (omega arith) ws

  -- As many wrong passwords as the threshold allows, at whatever times, lock the account: until the
  -- lockout ends every login is refused, the right password too, and changes nothing. It does not
  -- matter which of the writes on the way failed.
  pub lockout_after_threshold :
      (attempts : List Attempt) (t : Time) (p : Str) (u : User) (s : JsonStore) (now : Time)
      (password : Str)
      → Stored host.fold username u s
      → u.locked_until ≡ 0
      → u.failed_login_attempts + length attempts + 1 ≡ service.lockout_threshold
      → AllWrong u (attempts ++ (t, p) ∷ [])
      → now < t + service.lockout_duration
      → authenticate host service now username password (attempt_all (attempts ++ (t, p) ∷ []) s)
        ≡ (err account_locked, attempt_all (attempts ++ (t, p) ∷ []) s)
  unfolding is_locked
  lockout_after_threshold attempts t p u s now password h z n w b =
      let k = run-Stored attempts t p u s h z n w in
      authenticate_locked host service now username password _
        (get_user_by_name-eq-ok host.fold _ u.id username (locked_at t u) k.valid k.kept k.named)
        (ground arith)

  -- Once a lockout has ended, one more wrong password locks the account again.
  relock :
      (t : Time) (p : Str) (u : User) (s : JsonStore)
      → 0 < service.lockout_threshold
      → Stored host.fold username u s
      → service.lockout_threshold ≤ u.failed_login_attempts
      → is_locked t u ≡ false
      → verify_credentials host t u p ≡ false
      → 0 < service.lockout_duration
      → (authenticate host service t username p s).0 ≡ err account_locked
  unfolding authenticate record_failure is_locked
  relock t p u s pos h n l w d =
      ground (arith, get_user_by_name-eq-ok host.fold s u.id username u h.valid h.kept h.named, w)
