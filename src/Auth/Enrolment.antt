-- ===== src/Auth/Enrolment.antt =====
-- The two-factor state machine of internal/auth/totp.go, and its single-use recovery codes.
use cubozoa.Prelude.{
  ◌≡◌, ◌⊎◌, ap, ◌∙◌, inl, inr, true, false, Option, none, some, List, [], map, Str, str_eq_iff,
  is_empty, Result, ok, err, arith, Bool-cases, Option-cases, Result-cases,
}
use cubozoa.Prelude.Map.{get, get-put}
use cubozoa.Host.{Host}
use cubozoa.Store.Models.{Time, User}
use cubozoa.Store.State.{Mem, JsonStore, StoreError, not_found}
use cubozoa.Store.Accounts.{get_user_by_id, update_user}
use cubozoa.Store.Reads.{mem_of_commit}
use cubozoa.Security.Totp.{verify_totp_at}
use cubozoa.Auth.Service.{Service}
use cubozoa.Auth.TwoFactor.{
  begin_totp_setup, activate_totp, take_out, consume_recovery_code, disable_totp,
}

abbrev answer : Option User → Result StoreError User
answer none = err not_found
answer (some u) = ok u

get_user_by_id-eq-ok :
    (id : Str) (s : JsonStore) (u : User) → get id s.mem.users ≡ some u → get_user_by_id id s ≡ ok u
unfolding get_user_by_id
get_user_by_id-eq-ok id s u g = ap answer g

-- After an update the identity holds the new record, its write failing or not.
get-update_user :
    (id : Str) (u v : User) (s : JsonStore)
    → get id s.mem.users ≡ some u
    → v.id ≡ id
    → get id (update_user v s).1.mem.users ≡ some v
unfolding update_user
get-update_user id u v s g e =
    let old : get v.id s.mem.users ≡ some u = ap (λ (k : Str). get k s.mem.users) e ∙ g in
    rw (old, update_user)
      (ap (λ (m : Mem). get id m.users) (mem_of_commit _ s)
        ∙ (ground (arith, get-put v.id id v s.mem.users, str_eq_iff v.id id)))

module _ (host : Host) (now : Time) (user_id : Str) where
  begin-update :
      (secret : Str) (u : User) (s : JsonStore)
      → get_user_by_id user_id s ≡ ok u
      → u.totp_enabled ≡ false
      → (begin_totp_setup (some secret) user_id s).1
        ≡ (update_user (record u { pending_totp_secret = secret }) s).1
  unfolding begin_totp_setup
  begin-update secret u s g off = ground (arith, g, off)

  activate-update :
      (code : Str) (drawn : List Str) (u : User) (s : JsonStore)
      → get_user_by_id user_id s ≡ ok u
      → u.totp_enabled ≡ false
      → is_empty u.pending_totp_secret ≡ false
      → verify_totp_at host u.pending_totp_secret code now ≡ true
      → (activate_totp host now (some drawn) user_id code s).1
        ≡ (update_user
            (record u {
              totp_enabled = true;
              totp_secret = u.pending_totp_secret;
              pending_totp_secret = [];
              recovery_code_hashes = map host.hash_token drawn;
            })
            s).1
  unfolding activate_totp
  activate-update code drawn u s g off t w = ground (arith, g, off, t, w)

  -- Enrolment round trip: a user without two factors who begins a setup and confirms it with a code
  -- that the new secret verifies has two factors under that secret, and holds the recovery codes'
  -- hashes; only a failed write is reported otherwise, and the memory is the same.
  pub activate-begin :
      (secret code : Str) (drawn : List Str) (u : User) (s : JsonStore)
      → get user_id s.mem.users ≡ some u
      → u.id ≡ user_id
      → u.totp_enabled ≡ false
      → is_empty secret ≡ false
      → verify_totp_at host secret code now ≡ true
      → get user_id
          (activate_totp host now
            (some drawn)
            user_id
            code
            (begin_totp_setup (some secret) user_id s).1).1.mem.users
        ≡ some (record u {
          totp_enabled = true;
          totp_secret = secret;
          pending_totp_secret = [];
          recovery_code_hashes = map host.hash_token drawn;
        })
  activate-begin secret code drawn u s g i off t w =
      let pending = record u { pending_totp_secret = secret } in
      let t1 = (update_user pending s).1 in
      let kept = get-update_user user_id u pending s g i in
      rw (begin-update secret u s (get_user_by_id-eq-ok user_id s u g) off) (
        rw
          (activate-update code drawn pending t1 (get_user_by_id-eq-ok user_id t1 pending kept) off
            t w)
          (get-update_user user_id pending
            (record u {
              totp_enabled = true;
              totp_secret = secret;
              pending_totp_secret = [];
              recovery_code_hashes = map host.hash_token drawn;
            })
            t1 kept i))

  -- An activation that succeeds had a pending secret that verified the code.
  activate_totp_sound :
      (codes : Option (List Str)) (code : Str) (s : JsonStore) {shown : List Str}
      → (activate_totp host now codes user_id code s).0 ≡ ok shown
      → (u : User) × (get_user_by_id user_id s ≡ ok u)
        × (u.totp_enabled ≡ false)
        × (is_empty u.pending_totp_secret ≡ false)
        × (verify_totp_at host u.pending_totp_secret code now ≡ true)
        × (codes ≡ some shown)
  unfolding activate_totp
  activate_totp_sound codes code s h = elim (Result-cases (get_user_by_id user_id s)) [
    | inl (e, g) ↦ absurd (ground (arith, g))
    | inr (u, g) ↦
        (u, g, ground (arith, g), ground (arith, g), ground (arith, g), ground (arith, g))
  ]

  -- The second factor is removed only with a code that verifies or an unused recovery code.
  pub disable_totp_sound :
      (code : Str) (s : JsonStore)
      → (disable_totp host now user_id code s).0 ≡ ok tt
      → (u : User) × (get_user_by_id user_id s ≡ ok u)
        × (u.totp_enabled ≡ true)
        × ((verify_totp_at host u.totp_secret code now ≡ true)
            ⊎ ((left : List Str) × (is_empty code ≡ false)
                × (take_out (host.hash_token code) u.recovery_code_hashes ≡ some left)))
  unfolding disable_totp consume_recovery_code
  disable_totp_sound code s h = elim (Result-cases (get_user_by_id user_id s)) [
    | inl (e, g) ↦ absurd (ground (arith, g))
    | inr (u, g) ↦ elim (Bool-cases (verify_totp_at host u.totp_secret code now)) [
      | inl w ↦ (u, g, ground (arith, g), inl w)
      | inr w ↦ elim (Option-cases (take_out (host.hash_token code) u.recovery_code_hashes)) [
        | inl n ↦ absurd (ground (arith, g, w, n))
        | inr (left, n) ↦ (u, g, ground (arith, g), inr (left, ground (arith, g, w, n), n))
      ]
    ]
  ]
