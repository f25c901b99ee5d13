-- ===== src/Media/Browse.antt =====
-- internal/media/service.go: the queries that list items. `to_lower` and `trim_space` are those of
-- package strings. The order that `sort.Slice` leaves among equals is not specified; here it is the
-- order they came in.
use cubozoa.Prelude.{
  ℕ, ℤ, pos_part, Bool, not, ◌&&◌, ◌||◌, List, [], ◌∷◌, length, take, drop, keep, any, Str, codes,
  is_empty, str_eq, str_lt, has_prefix, ltb, leb, ◌==◌, sort_stable, if◌then◌else◌, min,
}
use cubozoa.Store.Models.{Library, MediaItem}
use cubozoa.Store.State.{JsonStore}
use cubozoa.Store.Catalog.{list_libraries, all_items, list_items_by_parent}

-- `strings.Contains`
unfoldable pub contains : Str → Str → Bool
contains [] sub = is_empty sub
contains (c ∷ s) sub = has_prefix (c ∷ s) sub || contains s sub

pub record BrowseQuery : Type 0 where
  pub parent_id : Str
  pub include_item_types : List Str
  pub recursive : Bool
  pub search_term : Str
  pub sort_by : Str
  pub sort_descending : Bool
  pub start_index : ℤ
  pub limit : ℤ

-- The comparison of `sortItems` before it is turned round.
unfoldable pub item_less : Str → MediaItem → MediaItem → Bool
item_less by a b =
    if str_eq by (codes "Name")
    then str_lt a.name b.name
    else if str_eq by (codes "DateCreated")
    then ltb a.date_created b.date_created
    else if str_eq by (codes "ProductionYear") && not (a.production_year == b.production_year)
    then ltb a.production_year b.production_year
    else str_lt a.sort_name b.sort_name

unfoldable pub directed_less : Str → Bool → MediaItem → MediaItem → Bool
unfolding item_less
directed_less by desc a b = if desc then item_less by b a else item_less by a b

unfoldable pub sort_items : Str → Bool → List MediaItem → List MediaItem
unfolding directed_less
sort_items by desc items = sort_stable (directed_less by desc) items

-- The clamped page of the sorted items.
unfoldable pub page : ℤ → ℤ → List MediaItem → List MediaItem
page start limit items =
    let rest = drop (min (pos_part start) (length items)) items in
    if ltb 0 (pos_part limit) && ltb (pos_part limit) (length rest)
    then take (pos_part limit) rest
    else rest

unfoldable pub candidates : BrowseQuery → JsonStore → List MediaItem
candidates q s =
    if q.recursive || is_empty q.parent_id then all_items s else list_items_by_parent q.parent_id s

module _ (to_lower trim_space : Str → Str) where
  -- An item passes the filters of types and of the search term.
  unfoldable pub matches : BrowseQuery → MediaItem → Bool
  unfolding contains
  matches q it =
      let types = keep (λ t. not (is_empty t)) q.include_item_types in
      let search = to_lower (trim_space q.search_term) in
      (leb (length types) 0 || any (λ t. str_eq t it.type) types)
      && (is_empty search || contains (to_lower it.name) search)

  -- The matching items in order, before paging.
  unfoldable pub listing : BrowseQuery → JsonStore → List MediaItem
  unfolding candidates matches sort_items
  listing q s = sort_items q.sort_by q.sort_descending (keep (matches q) (candidates q s))

  unfoldable pub browse : BrowseQuery → JsonStore → List MediaItem × ℕ
  unfolding listing page
  browse q s = let filtered = listing q s in (page q.start_index q.limit filtered, length filtered)

unfoldable libraries : JsonStore → List Library
libraries s = sort_stable (λ (a b : Library). str_lt a.name b.name) (list_libraries s)

unfoldable pub seasons : Str → JsonStore → List MediaItem
seasons series_id s =
    sort_stable (λ (a b : MediaItem). ltb a.index_number b.index_number)
      (keep (λ (it : MediaItem). str_eq it.type (codes "Season") && str_eq it.series_id series_id)
        (all_items s))

unfoldable pub episode_less : MediaItem → MediaItem → Bool
episode_less a b =
    if not (str_eq a.series_id b.series_id)
    then str_lt a.series_id b.series_id
    else if not (a.parent_index_number == b.parent_index_number)
    then ltb a.parent_index_number b.parent_index_number
    else ltb a.index_number b.index_number

unfoldable pub is_episode_of : Str → Str → MediaItem → Bool
is_episode_of series_id season_id it =
    not (not (str_eq it.type (codes "Episode")) || not (str_eq it.series_id series_id))
    && not (not (is_empty season_id) && not (str_eq it.season_id season_id))

unfoldable pub episodes : Str → Str → JsonStore → List MediaItem
unfolding episode_less is_episode_of
episodes series_id season_id s =
    sort_stable episode_less (keep (is_episode_of series_id season_id) (all_items s))

unfoldable pub all_episodes : JsonStore → List MediaItem
unfolding episode_less
all_episodes s =
    sort_stable episode_less
      (keep (λ (it : MediaItem). str_eq it.type (codes "Episode")) (all_items s))

unfoldable pub artists : Str → JsonStore → List MediaItem
artists library_id s =
    sort_stable (λ (a b : MediaItem). str_lt a.sort_name b.sort_name)
      (keep
        (λ (it : MediaItem).
          str_eq it.type (codes "MusicArtist")
          && not (not (is_empty library_id) && not (str_eq it.library_id library_id)))
        (all_items s))
