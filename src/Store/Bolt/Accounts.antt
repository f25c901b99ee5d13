-- ===== src/Store/Bolt/Accounts.antt =====
-- Users and sessions in internal/store/boltstore.go.
use cubozoa.Prelude.{ℕ, List, length, none, some, Str, any, find, Result, ok, err, if◌then◌else◌}
use cubozoa.Prelude.Map.{values}
use cubozoa.Store.Models.{Time, User, Session}
use cubozoa.Store.State.{StoreError, not_found, conflict}
use cubozoa.Store.Accounts.{equal_fold}
use cubozoa.Store.Bolt.Engine.{Engine}
use cubozoa.Store.Bolt.State.{BoltStore, Op, Tx, update}

module _ (E : Engine) where
  unfoldable pub create_user_tx : (Str → Str) → User → Tx E
  create_user_tx fold u db =
      if any (λ existing. equal_fold fold existing.name u.name) (values (E.entries db.users))
      then err conflict
      else ok (record db { users = E.put u.id u db.users })

  unfoldable pub create_user : (Str → Str) → User → Op E
  unfolding update create_user_tx
  create_user fold u = update E (create_user_tx fold u)

  unfoldable pub get_user_by_id : Str → BoltStore E → Result StoreError User
  get_user_by_id id s = elim (E.get id s.db.users) [ none ↦ err not_found | some u ↦ ok u ]

  unfoldable pub get_user_by_name : (Str → Str) → Str → BoltStore E → Result StoreError User
  get_user_by_name fold name s =
      elim (find (λ (u : User). equal_fold fold u.name name) (values (E.entries s.db.users))) [
        | none ↦ err not_found
        | some u ↦ ok u
      ]

  unfoldable list_users : BoltStore E → List User
  list_users s = values (E.entries s.db.users)

  unfoldable pub update_user_tx : User → Tx E
  update_user_tx u db = elim (E.get u.id db.users) [
    | none ↦ err not_found
    | some _ ↦ ok (record db { users = E.put u.id u db.users })
  ]

  unfoldable pub update_user : User → Op E
  unfolding update update_user_tx
  update_user u = update E (update_user_tx u)

  unfoldable count_users : BoltStore E → ℕ
  count_users s = length (E.entries s.db.users)

  unfoldable pub create_session_tx : Session → Tx E
  create_session_tx sess db = ok (record db {
    sessions = E.put sess.id sess db.sessions;
    idx_session_token = E.put sess.token_hash sess.id db.idx_session_token;
  })

  unfoldable pub create_session : Session → Op E
  unfolding update create_session_tx
  create_session sess = update E (create_session_tx sess)

  unfoldable pub get_session_by_token_hash : Str → BoltStore E → Result StoreError Session
  get_session_by_token_hash token_hash s = elim (E.get token_hash s.db.idx_session_token) [
    | none ↦ err not_found
    | some id ↦ elim (E.get id s.db.sessions) [ none ↦ err not_found | some sess ↦ ok sess ]
  ]

  unfoldable pub delete_session_tx : Str → Tx E
  delete_session_tx id db = elim (E.get id db.sessions) [
    | none ↦ err not_found
    | some sess ↦ ok (record db {
      sessions = E.delete id db.sessions;
      idx_session_token = E.delete sess.token_hash db.idx_session_token;
    })
  ]

  unfoldable pub delete_session : Str → Op E
  unfolding update delete_session_tx
  delete_session id = update E (delete_session_tx id)

  -- `now` is the time that the call reads.
  unfoldable pub touch_session_tx : Time → Str → Tx E
  touch_session_tx now id db = elim (E.get id db.sessions) [
    | none ↦ err not_found
    | some sess ↦
        ok (record db { sessions = E.put id (record sess { last_activity = now }) db.sessions })
  ]

  unfoldable pub touch_session : Time → Str → Op E
  unfolding update touch_session_tx
  touch_session now id = update E (touch_session_tx now id)
