-- ===== src/Store/Catalog.antt =====
-- Libraries and media items in internal/store/jsonstore.go.
use cubozoa.Prelude.{
  List, [], ◌∷◌, length, none, some, Str, str_eq, any, find, keep, Result, ok, err, if◌then◌else◌,
}
use cubozoa.Prelude.Map
use cubozoa.Prelude.Map.{Map, values}
use cubozoa.Store.Models.{Time, Library, MediaItem}
use cubozoa.Store.State.{JsonStore, Op, commit, flush_locked, StoreError, not_found, conflict}

unfoldable pub create_library : Library → Op (Unit {0})
unfolding flush_locked
create_library l s =
    if any (λ existing. str_eq existing.path l.path) (values s.mem.libraries)
    then (err conflict, s)
    else commit (record s.mem { libraries = Map.put l.id l s.mem.libraries }) s

unfoldable pub get_library : Str → JsonStore → Result StoreError Library
get_library id s = elim (Map.get id s.mem.libraries) [ none ↦ err not_found | some l ↦ ok l ]

unfoldable pub get_library_by_path : Str → JsonStore → Result StoreError Library
get_library_by_path path s =
    elim (find (λ (l : Library). str_eq l.path path) (values s.mem.libraries)) [
      | none ↦ err not_found
      | some l ↦ ok l
    ]

unfoldable pub list_libraries : JsonStore → List Library
list_libraries s = values s.mem.libraries

-- The library's items go with it.
unfoldable pub delete_library : Str → Op (Unit {0})
unfolding flush_locked
delete_library id s = elim (Map.get id s.mem.libraries) [
  | none ↦ (err not_found, s)
  | some _ ↦
      commit
        (record s.mem {
          libraries = Map.remove id s.mem.libraries;
          items = Map.drop_where (λ (it : MediaItem). str_eq it.library_id id) s.mem.items;
        })
        s
]

unfoldable pub get_item : Str → JsonStore → Result StoreError MediaItem
get_item id s = elim (Map.get id s.mem.items) [ none ↦ err not_found | some it ↦ ok it ]

unfoldable list_items_by_library : Str → JsonStore → List MediaItem
list_items_by_library library_id s =
    keep (λ (it : MediaItem). str_eq it.library_id library_id) (values s.mem.items)

unfoldable pub list_items_by_parent : Str → JsonStore → List MediaItem
list_items_by_parent parent_id s =
    keep (λ (it : MediaItem). str_eq it.parent_id parent_id) (values s.mem.items)

unfoldable pub all_items : JsonStore → List MediaItem
all_items s = values s.mem.items

-- The loop that inserts the fresh set, each item under the library's identity.
unfoldable pub insert_items : Str → List MediaItem → Map MediaItem → Map MediaItem
insert_items library_id [] m = m
insert_items library_id (it ∷ items) m =
    insert_items library_id items (Map.put it.id (record it { library_id = library_id }) m)

unfoldable pub replace_library_items : Time → Str → List MediaItem → Op (Unit {0})
unfolding flush_locked insert_items
replace_library_items now library_id items s = elim (Map.get library_id s.mem.libraries) [
  | none ↦ (err not_found, s)
  | some lib ↦
      let kept = Map.drop_where (λ (it : MediaItem). str_eq it.library_id library_id) s.mem.items in
      commit
        (record s.mem {
          items = insert_items library_id items kept;
          libraries =
              Map.put library_id (record lib { item_count = length items; scanned_at = now })
                s.mem.libraries;
        })
        s
]
