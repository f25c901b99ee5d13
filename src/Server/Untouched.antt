-- ===== src/Server/Untouched.antt =====
-- What the steps of a request to internal/server leave alone: the watched data.
use cubozoa.Prelude.{
  ◌≡◌, inl, inr, refl, sym, ap, ◌∙◌, Option, none, some, List, Str, is_empty, Result, ok, err,
  arith, Bool-cases, Option-cases, Result-cases,
}
use cubozoa.Prelude.Map
use cubozoa.Prelude.Map.{Map}
use cubozoa.Host.{Host}
use cubozoa.Store.Models.{Time, User, UserItemData}
use cubozoa.Store.State.{Mem, JsonStore, StoreError, not_found}
use cubozoa.Store.Accounts.{
  update_user, get_user_by_id, get_session_by_token_hash, touch_session, delete_session,
}
use cubozoa.Store.Playback.{get_user_item_data, user_data_key}
use cubozoa.Store.Reads.{mem_of_commit}
use cubozoa.Security.Totp.{verify_totp_at}
use cubozoa.Auth.Sessions.{validate_token, logout}
use cubozoa.Auth.TwoFactor.{begin_totp_setup, activate_totp, disable_totp, consume_recovery_code}
use cubozoa.UserData.{get_data}
use cubozoa.UserData.View.{IsFiled}

-- The watched data of two states is the same.
abbrev pub Keeps : JsonStore → JsonStore → Type 0
Keeps s s' = s'.mem.user_data ≡ s.mem.user_data

abbrev pub data_of : Mem → Map UserItemData
data_of m = m.user_data

update_user-Keeps : (v : User) (s : JsonStore) → Keeps s (update_user v s).1
unfolding update_user
update_user-Keeps v s = elim (Option-cases (Map.get v.id s.mem.users)) [
  | inl e ↦ rw (e, update_user) refl
  | inr (old, e) ↦ rw (e, update_user) (ap data_of (mem_of_commit _ s))
]

touch_session-Keeps : (now : Time) (id : Str) (s : JsonStore) → Keeps s (touch_session now id s).1
unfolding touch_session
touch_session-Keeps now id s = elim (Option-cases (Map.get id s.mem.sessions)) [
  | inl e ↦ rw (e, touch_session) refl
  | inr (old, e) ↦ rw (e, touch_session) (ap data_of (mem_of_commit _ s))
]

delete_session-Keeps : (id : Str) (s : JsonStore) → Keeps s (delete_session id s).1
unfolding delete_session
delete_session-Keeps id s = elim (Option-cases (Map.get id s.mem.sessions)) [
  | inl e ↦ rw (e, delete_session) refl
  | inr (old, e) ↦ rw (e, delete_session) (ap data_of (mem_of_commit _ s))
]

module _ (host : Host) where
  pub validate_token-Keeps :
      (now : Time) (token : Str) (s : JsonStore) → Keeps s (validate_token host now token s).1
  unfolding validate_token
  validate_token-Keeps now token s = elim (Bool-cases (is_empty token)) [
    | inl e ↦ rw (e, validate_token) refl
    | inr e ↦ elim (Result-cases (get_session_by_token_hash (host.hash_token token) s)) [
      | inl (x, f) ↦ rw (e, f, validate_token) refl
      | inr (sess, f) ↦ elim (Result-cases (get_user_by_id sess.user_id s)) [
        | inl (x, g) ↦ rw (e, f, g, validate_token) refl
        | inr (u, g) ↦ rw (e, f, g, validate_token) (touch_session-Keeps now sess.id s)
      ]
    ]
  ]

  pub logout-Keeps : (token : Str) (s : JsonStore) → Keeps s (logout host token s).1
  unfolding logout
  logout-Keeps token s = elim (Bool-cases (is_empty token)) [
    | inl e ↦ rw (e, logout) refl
    | inr e ↦ elim (Result-cases (get_session_by_token_hash (host.hash_token token) s)) [
      | inl (x, f) ↦ rw (e, f, logout) refl
      | inr (sess, f) ↦ rw (e, f, logout) (delete_session-Keeps sess.id s)
    ]
  ]

  pub begin_totp_setup-Keeps :
      (secret : Option Str) (id : Str) (s : JsonStore) → Keeps s (begin_totp_setup secret id s).1
  unfolding begin_totp_setup
  begin_totp_setup-Keeps secret id s = elim (Result-cases (get_user_by_id id s)) [
    | inl (x, e) ↦ rw (e, begin_totp_setup) refl
    | inr (u, e) ↦ elim (Bool-cases u.totp_enabled) [
      | inl f ↦ rw (e, f, begin_totp_setup) refl
      | inr f ↦ elim (Option-cases secret) [
        | inl g ↦ rw (e, f, g, begin_totp_setup) refl
        | inr (fresh, g) ↦ rw (e, f, g, begin_totp_setup) (update_user-Keeps _ s)
      ]
    ]
  ]

  pub activate_totp-Keeps :
      (now : Time) (drawn : Option (List Str)) (id code : Str) (s : JsonStore)
      → Keeps s (activate_totp host now drawn id code s).1
  unfolding activate_totp
  activate_totp-Keeps now drawn id code s = elim (Result-cases (get_user_by_id id s)) [
    | inl (x, e) ↦ rw (e, activate_totp) refl
    | inr (u, e) ↦ elim (Bool-cases u.totp_enabled) [
      | inl f ↦ rw (e, f, activate_totp) refl
      | inr f ↦ elim (Bool-cases (is_empty u.pending_totp_secret)) [
        | inl g ↦ rw (e, f, g, activate_totp) refl
        | inr g ↦ elim (Bool-cases (verify_totp_at host u.pending_totp_secret code now)) [
          | inr h ↦ rw (e, f, g, h, activate_totp) refl
          | inl h ↦ elim (Option-cases drawn) [
            | inl k ↦ rw (e, f, g, h, k, activate_totp) refl
            | inr (cs, k) ↦ rw (e, f, g, h, k, activate_totp) (update_user-Keeps _ s)
          ]
        ]
      ]
    ]
  ]

  pub disable_totp-Keeps :
      (now : Time) (id code : Str) (s : JsonStore) → Keeps s (disable_totp host now id code s).1
  unfolding disable_totp consume_recovery_code
  disable_totp-Keeps now id code s = elim (Result-cases (get_user_by_id id s)) [
    | inl (x, e) ↦ rw (e, disable_totp) refl
    | inr (u, e) ↦ elim (Bool-cases u.totp_enabled) [
      | inr f ↦ rw (e, f, disable_totp) refl
      | inl f ↦ elim (Bool-cases (verify_totp_at host u.totp_secret code now)) [
        | inl g ↦ rw (e, f, g, disable_totp) (update_user-Keeps _ s)
        | inr g ↦ elim (Option-cases (consume_recovery_code host u code)) [
          | inl h ↦ rw (e, f, g, h, disable_totp) refl
          | inr (left, h) ↦ rw (e, f, g, h, disable_totp) (update_user-Keeps _ s)
        ]
      ]
    ]
  ]

abbrev found_data : Option UserItemData → Result StoreError UserItemData
found_data none = err not_found
found_data (some d) = ok d

-- What is read of the watched data depends on nothing else.
pub get_user_item_data-Keeps :
    (user item : Str) (s s' : JsonStore)
    → Keeps s s'
    → get_user_item_data user item s' ≡ get_user_item_data user item s
unfolding get_user_item_data
get_user_item_data-Keeps user item s s' h =
    ap (λ (m : Map UserItemData). found_data (Map.get (user_data_key user item) m)) h

pub get_data-Keeps :
    (user item : Str) (s s' : JsonStore) → Keeps s s' → get_data user item s' ≡ get_data user item s
unfolding get_data
get_data-Keeps user item s s' h = ground (arith, get_user_item_data-Keeps user item s s' h)

pub IsFiled-Keeps : (s s' : JsonStore) → Keeps s s' → IsFiled s → IsFiled s'
IsFiled-Keeps s s' h f user item d hu g =
    f user item d hu (sym (get_user_item_data-Keeps user item s s' h) ∙ g)
