-- ===== src/Store/Bolt/Playback.antt =====
-- Per-user item data, recordings and series timers in internal/store/boltstore.go.
use cubozoa.Prelude.{List, none, some, Str, Result, ok, err}
use cubozoa.Prelude.Map.{values}
use cubozoa.Store.Models.{UserItemData, Recording, SeriesTimer}
use cubozoa.Store.State.{StoreError, not_found}
use cubozoa.Store.Bolt.Engine.{Engine}
use cubozoa.Store.Bolt.State.{BoltStore, Op, Tx, update, idx_key, idx_prefix, for_each_prefix}

module _ (E : Engine) where
  unfoldable pub get_user_item_data : Str → Str → BoltStore E → Result StoreError UserItemData
  unfolding idx_key
  get_user_item_data user_id item_id s = elim (E.get (idx_key user_id item_id) s.db.user_data) [
    | none ↦ err not_found
    | some d ↦ ok d
  ]

  unfoldable pub upsert_user_item_data_tx : UserItemData → Tx E
  unfolding idx_key
  upsert_user_item_data_tx d db =
      ok (record db { user_data = E.put (idx_key d.user_id d.item_id) d db.user_data })

  unfoldable pub upsert_user_item_data : UserItemData → Op E
  unfolding update upsert_user_item_data_tx
  upsert_user_item_data d = update E (upsert_user_item_data_tx d)

  unfoldable pub list_user_item_data : Str → BoltStore E → List UserItemData
  unfolding for_each_prefix idx_prefix
  list_user_item_data user_id s = values (for_each_prefix E s.db.user_data (idx_prefix user_id))

  unfoldable pub create_recording_tx : Recording → Tx E
  create_recording_tx rec db = ok (record db { recordings = E.put rec.id rec db.recordings })

  unfoldable pub create_recording : Recording → Op E
  unfolding update create_recording_tx
  create_recording rec = update E (create_recording_tx rec)

  unfoldable get_recording : Str → BoltStore E → Result StoreError Recording
  get_recording id s = elim (E.get id s.db.recordings) [ none ↦ err not_found | some rec ↦ ok rec ]

  unfoldable list_recordings : BoltStore E → List Recording
  list_recordings s = values (E.entries s.db.recordings)

  unfoldable pub update_recording_tx : Recording → Tx E
  update_recording_tx rec db = elim (E.get rec.id db.recordings) [
    | none ↦ err not_found
    | some _ ↦ ok (record db { recordings = E.put rec.id rec db.recordings })
  ]

  unfoldable pub update_recording : Recording → Op E
  unfolding update update_recording_tx
  update_recording rec = update E (update_recording_tx rec)

  unfoldable pub delete_recording_tx : Str → Tx E
  delete_recording_tx id db = elim (E.get id db.recordings) [
    | none ↦ err not_found
    | some _ ↦ ok (record db { recordings = E.delete id db.recordings })
  ]

  unfoldable pub delete_recording : Str → Op E
  unfolding update delete_recording_tx
  delete_recording id = update E (delete_recording_tx id)

  unfoldable pub create_series_timer_tx : SeriesTimer → Tx E
  create_series_timer_tx st db = ok (record db { series_timers = E.put st.id st db.series_timers })

  unfoldable pub create_series_timer : SeriesTimer → Op E
  unfolding update create_series_timer_tx
  create_series_timer st = update E (create_series_timer_tx st)

  unfoldable get_series_timer : Str → BoltStore E → Result StoreError SeriesTimer
  get_series_timer id s = elim (E.get id s.db.series_timers) [
    | none ↦ err not_found
    | some st ↦ ok st
  ]

  unfoldable list_series_timers : BoltStore E → List SeriesTimer
  list_series_timers s = values (E.entries s.db.series_timers)

  unfoldable pub delete_series_timer_tx : Str → Tx E
  delete_series_timer_tx id db = elim (E.get id db.series_timers) [
    | none ↦ err not_found
    | some _ ↦ ok (record db { series_timers = E.delete id db.series_timers })
  ]

  unfoldable pub delete_series_timer : Str → Op E
  unfolding update delete_series_timer_tx
  delete_series_timer id = update E (delete_series_timer_tx id)
