-- ===== src/Store/Accounts.antt =====
-- Users and sessions in internal/store/jsonstore.go.
-- `strings.EqualFold` compares two names by Unicode simple folding: `fold` gives the folded form, and
-- the section is over every such function.
use cubozoa.Prelude.{
  ℕ, List, length, none, some, Str, str_eq, any, find, Result, ok, err, if◌then◌else◌, Bool,
}
use cubozoa.Prelude.Map
use cubozoa.Prelude.Map.{values}
use cubozoa.Store.Models.{Time, User, Session}
use cubozoa.Store.State.{JsonStore, Op, commit, flush_locked, StoreError, not_found, conflict}

abbrev pub equal_fold : (Str → Str) → Str → Str → Bool
equal_fold fold a b = str_eq (fold a) (fold b)

unfoldable pub create_user : (Str → Str) → User → Op (Unit {0})
unfolding flush_locked
create_user fold u s =
    if any (λ existing. equal_fold fold existing.name u.name) (values s.mem.users)
    then (err conflict, s)
    else commit (record s.mem { users = Map.put u.id u s.mem.users }) s

unfoldable pub get_user_by_id : Str → JsonStore → Result StoreError User
get_user_by_id id s = elim (Map.get id s.mem.users) [ none ↦ err not_found | some u ↦ ok u ]

unfoldable pub get_user_by_name : (Str → Str) → Str → JsonStore → Result StoreError User
get_user_by_name fold name s =
    elim (find (λ (u : User). equal_fold fold u.name name) (values s.mem.users)) [
      | none ↦ err not_found
      | some u ↦ ok u
    ]

unfoldable pub list_users : JsonStore → List User
list_users s = values s.mem.users

unfoldable pub update_user : User → Op (Unit {0})
unfolding flush_locked
update_user u s = elim (Map.get u.id s.mem.users) [
  | none ↦ (err not_found, s)
  | some _ ↦ commit (record s.mem { users = Map.put u.id u s.mem.users }) s
]

unfoldable pub count_users : JsonStore → ℕ
count_users s = length s.mem.users

unfoldable pub create_session : Session → Op (Unit {0})
unfolding flush_locked
create_session sess s = commit (record s.mem { sessions = Map.put sess.id sess s.mem.sessions }) s

unfoldable pub get_session_by_token_hash : Str → JsonStore → Result StoreError Session
get_session_by_token_hash token_hash s =
    elim (find (λ (sess : Session). str_eq sess.token_hash token_hash) (values s.mem.sessions)) [
      | none ↦ err not_found
      | some sess ↦ ok sess
    ]

unfoldable pub delete_session : Str → Op (Unit {0})
unfolding flush_locked
delete_session id s = elim (Map.get id s.mem.sessions) [
  | none ↦ (err not_found, s)
  | some _ ↦ commit (record s.mem { sessions = Map.remove id s.mem.sessions }) s
]

-- `now` is the time that the call reads.
unfoldable pub touch_session : Time → Str → Op (Unit {0})
unfolding flush_locked
touch_session now id s = elim (Map.get id s.mem.sessions) [
  | none ↦ (err not_found, s)
  | some sess ↦
      commit
        (record s.mem {
          sessions = Map.put id (record sess { last_activity = now }) s.mem.sessions;
        })
        s
]
