-- ===== src/UserData.antt =====
-- internal/userdata/service.go: per-user playback state over the store.
pub mod Resume
pub mod View
pub mod Table
use cubozoa.Prelude.{
  ℕ, ◌+◌, Bool, true, false, not, ◌&&◌, Option, none, some, List, [], ◌∷◌, map, reverse, Str,
  is_empty, Result, ok, err, ltb, if◌then◌else◌, keep, ℤ, pos_part,
}
use cubozoa.Prelude.Map
use cubozoa.Prelude.Map.{Map}
use cubozoa.Store.Models.{Time, UserItemData}
use cubozoa.Store.State.{JsonStore, StoreError}
use cubozoa.Store.Playback.{get_user_item_data, upsert_user_item_data, list_user_item_data}

pub data UserDataError : Type 0 where
  empty_item_id : UserDataError
  store_error : StoreError → UserDataError

abbrev zero_data : Str → Str → UserItemData
zero_data user_id item_id = record {
  user_id = user_id;
  item_id = item_id;
  playback_position_ticks = 0;
  play_count = 0;
  played = false;
  is_favorite = false;
  last_played_at = 0;
}

-- `Get`: a pair with no data has a zeroed record.
unfoldable pub get_data : Str → Str → JsonStore → UserItemData
get_data user_id item_id s = elim (get_user_item_data user_id item_id s) [
  | err _ ↦ zero_data user_id item_id
  | ok d ↦ d
]

-- `Map`: the loop that keys a user's data by item.
unfoldable pub index_data : List UserItemData → Map UserItemData → Map UserItemData
index_data [] m = m
index_data (d ∷ ds) m = index_data ds (Map.put d.item_id d m)

unfoldable pub map_data : Str → JsonStore → Map UserItemData
unfolding index_data
map_data user_id s = index_data (list_user_item_data user_id s) []

abbrev Update : Type 0
Update = JsonStore → Result UserDataError UserItemData × JsonStore

-- `return d, s.store.UpsertUserItemData(d)`
abbrev pub saving : UserItemData → Update
saving d s =
    let done = upsert_user_item_data d s in
    (elim done.0 [ ok _ ↦ ok d | err e ↦ err (store_error e) ], done.1)

unfoldable pub report_position : Time → Str → Str → ℤ → Update
report_position now user_id item_id ticks s =
    if is_empty item_id
    then (err empty_item_id, s)
    else saving
        (record (get_data user_id item_id s) {
          playback_position_ticks = pos_part ticks;
          last_played_at = now;
        })
        s

unfoldable pub mark_played : Time → Str → Str → Update
mark_played now user_id item_id s =
    let d = get_data user_id item_id s in
    saving
      (record d {
        played = true;
        play_count = d.play_count + 1;
        playback_position_ticks = 0;
        last_played_at = now;
      })
      s

unfoldable pub mark_unplayed : Str → Str → Update
mark_unplayed user_id item_id s =
    saving (record (get_data user_id item_id s) { played = false; playback_position_ticks = 0 }) s

unfoldable pub set_favorite : Str → Str → Bool → Update
set_favorite user_id item_id fav s =
    saving (record (get_data user_id item_id s) { is_favorite = fav }) s

-- The inner loop of `sortByLastPlayedDesc`: `d[j]` moves to the left past the entries that were played
-- before it. The entries to its left are given from right to left.
unfoldable pub move_left : UserItemData → List UserItemData → List UserItemData
move_left d [] = d ∷ []
move_left d (e ∷ left) =
    let passed = e ∷ move_left d left in
    if ltb e.last_played_at d.last_played_at then passed else d ∷ e ∷ left

-- The outer loop, with the sorted prefix from right to left.
unfoldable pub sort_loop : List UserItemData → List UserItemData → List UserItemData
unfolding move_left
sort_loop left [] = left
sort_loop left (d ∷ rest) = sort_loop (move_left d left) rest

unfoldable pub sort_by_last_played_desc : List UserItemData → List UserItemData
unfolding sort_loop
sort_by_last_played_desc ds = reverse (sort_loop [] ds)

-- A resume position is set and the item is not watched.
abbrev pub in_progress : UserItemData → Bool
in_progress d = ltb 0 d.playback_position_ticks && not d.played

unfoldable pub resumable : Str → JsonStore → List Str
resumable user_id s =
    map (λ (d : UserItemData). d.item_id)
      (sort_by_last_played_desc (keep in_progress (list_user_item_data user_id s)))
