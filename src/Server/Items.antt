-- ===== src/Server/Items.antt =====
-- internal/server/handlers_items.go, handlers_shows.go and media_map.go: what is listed to a user. Each
-- item comes with the caller's data of it; the other fields of a reply, which copy the item and the
-- query, are left out. The parameters of a request's query are decoded.
use cubozoa.Prelude.{
  ℕ, ℤ, pos, pos_part, ◌+◌, Bool, true, not, ◌&&◌, ltb, leb, Option, List, [], ◌∷◌, map, take,
  length, any, Str, codes, str_eq, ok, err, if◌then◌else◌,
}
use cubozoa.Prelude.Map
use cubozoa.Prelude.Map.{Map}
use cubozoa.Store.Models.{MediaItem, UserItemData}
use cubozoa.Store.State.{JsonStore, not_found}
use cubozoa.Store.Catalog.{get_item}
use cubozoa.UserData.{map_data, get_data}
use cubozoa.Media.Browse.{BrowseQuery, browse, seasons, episodes, all_episodes, artists}
use cubozoa.Server.Login.{Handler, item_body, items_body, reply}
use cubozoa.Server.Users.{show, with_user}
use cubozoa.Server.NextUp.{next_up}

-- `itemsToDtos`
abbrev items_to_dtos : Map UserItemData → List MediaItem → List (MediaItem × Option UserItemData)
items_to_dtos ud = map (λ (it : MediaItem). (it, Map.get it.id ud))

-- The answer to a caller that lists items.
abbrev listed : (JsonStore → List MediaItem × ℕ) → Handler
listed query = with_user (λ caller w.
    let (items, total) = query w.store in
    (show (items_body (items_to_dtos (map_data caller.id w.store) items) total), w))

abbrev counting : List MediaItem → List MediaItem × ℕ
counting items = (items, length items)

unfoldable pub is_folder_type : Str → Bool
is_folder_type t = any (str_eq t) (
    codes "Series"
    ∷ codes "Season"
    ∷ codes "MusicArtist"
    ∷ codes "MusicAlbum"
    ∷ codes "Folder"
    ∷ [])

-- The loop of `handleItemsLatest`, which tests the limit after each item: `n` are playable so far.
unfoldable pub playable_loop : ℤ → ℕ → List MediaItem → List MediaItem
unfolding is_folder_type
playable_loop limit n [] = []
playable_loop limit n (it ∷ items) =
    let full : ℕ → Bool = λ m. leb (pos_part limit) m in
    let after = playable_loop limit (n + 1) items in
    let passed = playable_loop limit n items in
    if not (is_folder_type it.type)
    then it ∷ (if full (n + 1) then [] else after)
    else if full n
    then []
    else passed

-- The page of at most `limit`, where it is positive.
abbrev limited : ℤ → List MediaItem → List MediaItem
limited limit picks =
    if ltb 0 (pos_part limit) && ltb (pos_part limit) (length picks)
    then take (pos_part limit) picks
    else picks

unfoldable pub handle_item_detail : Str → Handler
handle_item_detail id = with_user (λ caller w. elim (get_item id w.store) [
  | err not_found ↦ (reply 404, w)
  | err _ ↦ (reply 500, w)
  | ok it ↦ (show (item_body it (get_data caller.id it.id w.store)), w)
])

unfoldable pub handle_artists : Str → Handler
handle_artists parent_id = listed (λ s. counting (artists parent_id s))

unfoldable pub handle_seasons : Str → Handler
handle_seasons series_id = listed (λ s. counting (seasons series_id s))

unfoldable pub handle_episodes : Str → Str → Handler
handle_episodes series_id season_id = listed (λ s. counting (episodes series_id season_id s))

unfoldable pub handle_next_up : ℤ → Handler
unfolding next_up
handle_next_up limit = with_user (λ caller w.
    let ud = map_data caller.id w.store in
    let picks = limited limit (next_up (all_episodes w.store) ud) in
    (show (items_body (items_to_dtos ud picks) (length picks)), w))

module _ (to_lower trim_space : Str → Str) where
  unfoldable pub handle_items : BrowseQuery → Handler
  handle_items q = listed (browse to_lower trim_space q)

  unfoldable pub handle_items_latest : Str → List Str → ℤ → Handler
  unfolding playable_loop
  handle_items_latest parent_id types limit =
      let q : BrowseQuery = record {
        parent_id = parent_id;
        include_item_types = types;
        recursive = true;
        search_term = [];
        sort_by = codes "DateCreated";
        sort_descending = true;
        start_index = pos 0;
        limit = pos 0;
      } in
      listed (λ s.
        let playable = playable_loop limit 0 (browse to_lower trim_space q s).0 in
        counting playable)
