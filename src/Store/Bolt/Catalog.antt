-- ===== src/Store/Bolt/Catalog.antt =====
-- Libraries and media items in internal/store/boltstore.go.
use cubozoa.Prelude.{
  ℕ, List, [], ◌∷◌, length, drop, none, some, Str, str_eq, any, find, Result, ok, err,
  if◌then◌else◌,
}
use cubozoa.Prelude.Map.{values}
use cubozoa.Store.Models.{Time, Library, MediaItem}
use cubozoa.Store.State.{StoreError, not_found, conflict}
use cubozoa.Store.Bolt.Engine.{Engine}
use cubozoa.Store.Bolt.State.{
  Buckets, BoltStore, Op, Tx, update, idx_key, idx_prefix, for_each_prefix,
}

-- `k[len(prefix):]` of every key that was visited.
unfoldable pub cut_keys : {V : Type 0} → ℕ → List (Str × V) → List Str
cut_keys n [] = []
cut_keys n ((k, v) ∷ m) = drop n k ∷ cut_keys n m

module _ (E : Engine) where
  unfoldable pub create_library_tx : Library → Tx E
  create_library_tx l db =
      if any (λ existing. str_eq existing.path l.path) (values (E.entries db.libraries))
      then err conflict
      else ok (record db { libraries = E.put l.id l db.libraries })

  unfoldable pub create_library : Library → Op E
  unfolding update create_library_tx
  create_library l = update E (create_library_tx l)

  unfoldable get_library : Str → BoltStore E → Result StoreError Library
  get_library id s = elim (E.get id s.db.libraries) [ none ↦ err not_found | some l ↦ ok l ]

  unfoldable get_library_by_path : Str → BoltStore E → Result StoreError Library
  get_library_by_path path s =
      elim (find (λ (l : Library). str_eq l.path path) (values (E.entries s.db.libraries))) [
        | none ↦ err not_found
        | some l ↦ ok l
      ]

  unfoldable list_libraries : BoltStore E → List Library
  list_libraries s = values (E.entries s.db.libraries)

  -- The second dimension of the keys of an index under the first.
  unfoldable pub indexed_ids : Str → E.Bucket (Unit {0}) → List Str
  unfolding for_each_prefix idx_prefix cut_keys
  indexed_ids dim index =
      cut_keys (length (idx_prefix dim)) (for_each_prefix E index (idx_prefix dim))

  -- One round of the loop of `deleteLibraryItems`.
  unfoldable pub delete_library_item : Str → Str → Buckets E → Buckets E
  unfolding idx_key
  delete_library_item library_id item_id db =
      let by_parent : E.Bucket (Unit {0}) = elim (E.get item_id db.items) [
        | none ↦ db.idx_item_parent
        | some it ↦ E.delete (idx_key it.parent_id item_id) db.idx_item_parent
      ] in
      record db {
        items = E.delete item_id db.items;
        idx_item_library = E.delete (idx_key library_id item_id) db.idx_item_library;
        idx_item_parent = by_parent;
      }

  unfoldable pub delete_each : Str → List Str → Buckets E → Buckets E
  unfolding delete_library_item
  delete_each library_id [] db = db
  delete_each library_id (item_id ∷ ids) db =
      delete_each library_id ids (delete_library_item library_id item_id db)

  -- The identities are collected first.
  unfoldable pub delete_library_items : Str → Buckets E → Buckets E
  unfolding indexed_ids delete_each
  delete_library_items library_id db =
      delete_each library_id (indexed_ids library_id db.idx_item_library) db

  unfoldable pub delete_library_tx : Str → Tx E
  unfolding delete_library_items
  delete_library_tx id db = elim (E.get id db.libraries) [
    | none ↦ err not_found
    | some _ ↦ ok (delete_library_items id (record db { libraries = E.delete id db.libraries }))
  ]

  unfoldable pub delete_library : Str → Op E
  unfolding update delete_library_tx
  delete_library id = update E (delete_library_tx id)

  unfoldable pub get_item : Str → BoltStore E → Result StoreError MediaItem
  get_item id s = elim (E.get id s.db.items) [ none ↦ err not_found | some it ↦ ok it ]

  -- An identity without an item is skipped.
  unfoldable pub items_at : List Str → E.Bucket MediaItem → List MediaItem
  items_at [] items = []
  items_at (id ∷ ids) items =
      let rest = items_at ids items in elim (E.get id items) [ none ↦ rest | some it ↦ it ∷ rest ]

  unfoldable pub list_items_by_library : Str → BoltStore E → List MediaItem
  unfolding indexed_ids items_at
  list_items_by_library library_id s =
      items_at (indexed_ids library_id s.db.idx_item_library) s.db.items

  unfoldable pub list_items_by_parent : Str → BoltStore E → List MediaItem
  unfolding indexed_ids items_at
  list_items_by_parent parent_id s =
      items_at (indexed_ids parent_id s.db.idx_item_parent) s.db.items

  unfoldable pub all_items : BoltStore E → List MediaItem
  all_items s = values (E.entries s.db.items)

  -- One round of the loop of `ReplaceLibraryItems`: the clone, and its two index entries.
  unfoldable pub insert_item : Str → MediaItem → Buckets E → Buckets E
  unfolding idx_key
  insert_item library_id it db = record db {
    items = E.put it.id (record it { library_id = library_id }) db.items;
    idx_item_library = E.put (idx_key library_id it.id) tt db.idx_item_library;
    idx_item_parent = E.put (idx_key it.parent_id it.id) tt db.idx_item_parent;
  }

  unfoldable pub insert_each : Str → List MediaItem → Buckets E → Buckets E
  unfolding insert_item
  insert_each library_id [] db = db
  insert_each library_id (it ∷ items) db =
      insert_each library_id items (insert_item library_id it db)

  unfoldable pub replace_library_items_tx : Time → Str → List MediaItem → Tx E
  unfolding delete_library_items insert_each
  replace_library_items_tx now library_id items db = elim (E.get library_id db.libraries) [
    | none ↦ err not_found
    | some lib ↦
        let db' = insert_each library_id items (delete_library_items library_id db) in
        ok (record db' {
          libraries =
              E.put library_id (record lib { item_count = length items; scanned_at = now })
                db'.libraries;
        })
  ]

  unfoldable pub replace_library_items : Time → Str → List MediaItem → Op E
  unfolding update replace_library_items_tx
  replace_library_items now library_id items =
      update E (replace_library_items_tx now library_id items)
