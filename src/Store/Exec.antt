-- ===== src/Store/Exec.antt =====
-- The mutations of the `Store` interface (internal/store/store.go) as data, so that a history of a
-- store is a list of them.
use cubozoa.Prelude.{List, [], ◌∷◌, Str}
use cubozoa.Store.Models.{
  Time, User, Session, Library, MediaItem, UserItemData, Recording, SeriesTimer,
}
use cubozoa.Store.State.{JsonStore, Op, flush_locked}
use cubozoa.Store.Accounts
use cubozoa.Store.Catalog
use cubozoa.Store.Playback

pub data Mutation : Type 0 where
  create_user : User → Mutation
  update_user : User → Mutation
  create_session : Session → Mutation
  delete_session : Str → Mutation
  touch_session : Time → Str → Mutation
  create_library : Library → Mutation
  delete_library : Str → Mutation
  replace_library_items : Time → Str → List MediaItem → Mutation
  upsert_user_item_data : UserItemData → Mutation
  create_recording : Recording → Mutation
  update_recording : Recording → Mutation
  delete_recording : Str → Mutation
  create_series_timer : SeriesTimer → Mutation
  delete_series_timer : Str → Mutation
  close : Mutation

unfoldable pub exec : (Str → Str) → Mutation → Op (Unit {0})
unfolding flush_locked Accounts.create_user Accounts.update_user Accounts.create_session
    Accounts.delete_session Accounts.touch_session Catalog.create_library Catalog.delete_library
    Catalog.replace_library_items Playback.upsert_user_item_data Playback.create_recording
    Playback.update_recording Playback.delete_recording Playback.create_series_timer
    Playback.delete_series_timer
exec fold (create_user u) = Accounts.create_user fold u
exec fold (update_user u) = Accounts.update_user u
exec fold (create_session sess) = Accounts.create_session sess
exec fold (delete_session id) = Accounts.delete_session id
exec fold (touch_session now id) = Accounts.touch_session now id
exec fold (create_library l) = Catalog.create_library l
exec fold (delete_library id) = Catalog.delete_library id
exec fold (replace_library_items now id items) = Catalog.replace_library_items now id items
exec fold (upsert_user_item_data d) = Playback.upsert_user_item_data d
exec fold (create_recording rec) = Playback.create_recording rec
exec fold (update_recording rec) = Playback.update_recording rec
exec fold (delete_recording id) = Playback.delete_recording id
exec fold (create_series_timer st) = Playback.create_series_timer st
exec fold (delete_series_timer id) = Playback.delete_series_timer id
exec fold close = flush_locked

-- A history of mutations, each of which may fail and leaves a store for the next.
unfoldable pub run : (Str → Str) → List Mutation → JsonStore → JsonStore
unfolding exec
run fold [] s = s
run fold (op ∷ ops) s = run fold ops (exec fold op s).1
