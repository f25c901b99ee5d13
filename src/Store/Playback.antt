-- ===== src/Store/Playback.antt =====
-- Per-user item data, recordings and series timers in internal/store/jsonstore.go.
use cubozoa.Prelude.{List, ◌∷◌, ◌++◌, none, some, Str, str_eq, keep, Result, ok, err}
use cubozoa.Prelude.Map
use cubozoa.Prelude.Map.{values}
use cubozoa.Store.Models.{UserItemData, Recording, SeriesTimer}
use cubozoa.Store.State.{JsonStore, Op, commit, flush_locked, StoreError, not_found}

-- The two identities with a zero byte between them.
unfoldable pub user_data_key : Str → Str → Str
user_data_key user_id item_id = user_id ++ 0 ∷ item_id

unfoldable pub get_user_item_data : Str → Str → JsonStore → Result StoreError UserItemData
unfolding user_data_key
get_user_item_data user_id item_id s =
    elim (Map.get (user_data_key user_id item_id) s.mem.user_data) [
      | none ↦ err not_found
      | some d ↦ ok d
    ]

unfoldable pub upsert_user_item_data : UserItemData → Op (Unit {0})
unfolding flush_locked user_data_key
upsert_user_item_data d s =
    commit
      (record s.mem { user_data = Map.put (user_data_key d.user_id d.item_id) d s.mem.user_data }) s

unfoldable pub list_user_item_data : Str → JsonStore → List UserItemData
list_user_item_data user_id s =
    keep (λ (d : UserItemData). str_eq d.user_id user_id) (values s.mem.user_data)

unfoldable pub create_recording : Recording → Op (Unit {0})
unfolding flush_locked
create_recording rec s =
    commit (record s.mem { recordings = Map.put rec.id rec s.mem.recordings }) s

unfoldable pub get_recording : Str → JsonStore → Result StoreError Recording
get_recording id s = elim (Map.get id s.mem.recordings) [ none ↦ err not_found | some rec ↦ ok rec ]

unfoldable pub list_recordings : JsonStore → List Recording
list_recordings s = values s.mem.recordings

unfoldable pub update_recording : Recording → Op (Unit {0})
unfolding flush_locked
update_recording rec s = elim (Map.get rec.id s.mem.recordings) [
  | none ↦ (err not_found, s)
  | some _ ↦ commit (record s.mem { recordings = Map.put rec.id rec s.mem.recordings }) s
]

unfoldable pub delete_recording : Str → Op (Unit {0})
unfolding flush_locked
delete_recording id s = elim (Map.get id s.mem.recordings) [
  | none ↦ (err not_found, s)
  | some _ ↦ commit (record s.mem { recordings = Map.remove id s.mem.recordings }) s
]

unfoldable pub create_series_timer : SeriesTimer → Op (Unit {0})
unfolding flush_locked
create_series_timer st s =
    commit (record s.mem { series_timers = Map.put st.id st s.mem.series_timers }) s

unfoldable get_series_timer : Str → JsonStore → Result StoreError SeriesTimer
get_series_timer id s = elim (Map.get id s.mem.series_timers) [
  | none ↦ err not_found
  | some st ↦ ok st
]

unfoldable pub list_series_timers : JsonStore → List SeriesTimer
list_series_timers s = values s.mem.series_timers

unfoldable pub delete_series_timer : Str → Op (Unit {0})
unfolding flush_locked
delete_series_timer id s = elim (Map.get id s.mem.series_timers) [
  | none ↦ (err not_found, s)
  | some _ ↦ commit (record s.mem { series_timers = Map.remove id s.mem.series_timers }) s
]
