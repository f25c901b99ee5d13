-- ===== src/Store/Bolt/Exec.antt =====
-- The mutations of internal/store/boltstore.go under the one list of mutations of the interface, and
-- their histories.
use cubozoa.Prelude.{List, [], ◌∷◌, Str, ok}
use cubozoa.Store.Exec.{
  Mutation, create_user, update_user, create_library, delete_library, replace_library_items,
  delete_session, touch_session, create_session, upsert_user_item_data, create_recording,
  update_recording, delete_recording, create_series_timer, delete_series_timer, close,
}
use cubozoa.Store.Bolt.Engine.{Engine}
use cubozoa.Store.Bolt.State.{BoltStore, Op, update}
use cubozoa.Store.Bolt.Accounts
use cubozoa.Store.Bolt.Catalog
use cubozoa.Store.Bolt.Playback

module _ (E : Engine) (fold : Str → Str) where
  -- `Close` leaves the database as it is.
  abbrev close_db : Op E
  close_db s = (ok tt, s)

  unfoldable pub exec : Mutation → Op E
  unfolding update Accounts.create_user Accounts.update_user Accounts.create_session
      Accounts.delete_session Accounts.touch_session Catalog.create_library Catalog.delete_library
      Catalog.replace_library_items Playback.upsert_user_item_data Playback.create_recording
      Playback.update_recording Playback.delete_recording Playback.create_series_timer
      Playback.delete_series_timer
  exec (create_user u) = Accounts.create_user E fold u
  exec (update_user u) = Accounts.update_user E u
  exec (create_session sess) = Accounts.create_session E sess
  exec (delete_session id) = Accounts.delete_session E id
  exec (touch_session now id) = Accounts.touch_session E now id
  exec (create_library l) = Catalog.create_library E l
  exec (delete_library id) = Catalog.delete_library E id
  exec (replace_library_items now id items) = Catalog.replace_library_items E now id items
  exec (upsert_user_item_data d) = Playback.upsert_user_item_data E d
  exec (create_recording rec) = Playback.create_recording E rec
  exec (update_recording rec) = Playback.update_recording E rec
  exec (delete_recording id) = Playback.delete_recording E id
  exec (create_series_timer st) = Playback.create_series_timer E st
  exec (delete_series_timer id) = Playback.delete_series_timer E id
  exec close = close_db

  unfoldable pub run : List Mutation → BoltStore E → BoltStore E
  unfolding exec
  run [] s = s
  run (op ∷ ops) s = run ops (exec op s).1
