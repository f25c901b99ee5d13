-- ===== src/Store/Bolt/Stale.antt =====
-- A scan that meets an item of another library (internal/store/boltstore.go: ReplaceLibraryItems;
-- an item's identity is a hash of its path alone, so nested library roots share items).
use cubozoa.Prelude.{
  ◌≡◌, refl, ap, ◌∙◌, ◌+◌, ◌++◌, length, All, true, false, List, [], ◌∷◌, none, some, Str, str_eq,
  str_eq_refl, arith, ok, err, ℕ,
}
use cubozoa.Store.Models.{MediaItem, Time, Library}
use cubozoa.Store.State.{not_found}
use cubozoa.Store.Reads.{Lacks0}
use cubozoa.Store.Bolt.Engine.{Engine}
use cubozoa.Store.Bolt.State.{Buckets, BoltStore, Tx, idx_key, update}
use cubozoa.Store.Bolt.Catalog.{
  delete_each, delete_library_item, delete_library_items, insert_item, insert_each, indexed_ids,
  delete_library, delete_library_tx, replace_library_items, replace_library_items_tx, get_item,
}
use cubozoa.Store.Bolt.Scan.{elem-indexed_ids}
use cubozoa.Store.Bolt.Index.{key_lem, get-delete_each}

module _ (E : Engine) where
  -- Deleting the items of one library leaves the index entries of another.
  other_index :
      (a b i : Str) (ids : List Str) (db : Buckets E)
      → Lacks0 a
      → Lacks0 b
      → str_eq b a ≡ false
      → E.get (idx_key a i) (delete_each E b ids db).idx_item_library
        ≡ E.get (idx_key a i) db.idx_item_library
  unfolding delete_each delete_library_item
  other_index a b i [] db ha hb n = refl
  other_index a b i (k ∷ ids) db ha hb n = ground (
    arith,
    other_index a b i ids (delete_library_item E b k db) ha hb n,
    E.get-delete (idx_key b k) (idx_key a i) db.idx_item_library,
    key_lem b a k i hb ha,
  )

  libraries-delete_each :
      (b : Str) (ids : List Str) (db : Buckets E)
      → (delete_each E b ids db).libraries ≡ db.libraries
  unfolding delete_each delete_library_item
  libraries-delete_each b [] db = refl
  libraries-delete_each b (k ∷ ids) db = libraries-delete_each b ids (delete_library_item E b k db)

  -- A transaction that goes through leaves what its body made.
  db-update :
      (body : Tx E) (s : BoltStore E) (db : Buckets E)
      → ((n : ℕ) → s.commit_ok n ≡ true)
      → body s.db ≡ ok db
      → update E body s ≡ (ok tt, record s { db = db; updates = s.updates + 1 })
  unfolding update
  db-update body s db cs e = rw (e, update) (rw (cs s.updates))

  index-insert_each :
      (a b i : Str) (its : List MediaItem) (db : Buckets E)
      → Lacks0 a
      → Lacks0 b
      → str_eq b a ≡ false
      → E.get (idx_key a i) (insert_each E b its db).idx_item_library
        ≡ E.get (idx_key a i) db.idx_item_library
  unfolding insert_each insert_item
  index-insert_each a b i [] db ha hb n = refl
  index-insert_each a b i (it ∷ its) db ha hb n = ground (
    arith,
    index-insert_each a b i its (insert_item E b it db) ha hb n,
    E.get-put (idx_key b it.id) (idx_key a i) tt db.idx_item_library,
    key_lem b a it.id i hb ha,
  )

  libraries-insert_each :
      (b : Str) (its : List MediaItem) (db : Buckets E)
      → (insert_each E b its db).libraries ≡ db.libraries
  unfolding insert_each insert_item
  libraries-insert_each b [] db = refl
  libraries-insert_each b (it ∷ its) db = libraries-insert_each b its (insert_item E b it db)

  -- Items of other identities leave an item as it is.
  item-insert_each :
      (b i : Str) (its : List MediaItem) (db : Buckets E)
      → All (λ (x : MediaItem). str_eq x.id i ≡ false) its
      → E.get i (insert_each E b its db).items ≡ E.get i db.items
  unfolding insert_each insert_item
  item-insert_each b i [] db h = refl
  item-insert_each b i (it ∷ its) db (n, h) =
      item-insert_each b i its (insert_item E b it db) h
      ∙ E.get-put it.id i (record it { library_id = b }) db.items
      ∙ (rw n)

  new_item :
      (b : Str) (it : MediaItem) (db : Buckets E)
      → E.get it.id (insert_item E b it db).items ≡ some (record it { library_id = b })
  unfolding insert_item
  new_item b it db =
      ground
        (arith, E.get-put it.id it.id (record it { library_id = b }) db.items, str_eq_refl it.id)

  item_inserted :
      (b : Str) (it : MediaItem) (before after : List MediaItem) (db : Buckets E)
      → All (λ (x : MediaItem). str_eq x.id it.id ≡ false) after
      → E.get it.id (insert_each E b (before ++ it ∷ after) db).items
        ≡ some (record it { library_id = b })
  unfolding insert_each
  item_inserted b it [] after db h =
      item-insert_each b it.id after (insert_item E b it db) h ∙ new_item b it db
  item_inserted b it (x ∷ before) after db h =
      item_inserted b it before after (insert_item E b x db) h

  rescanned : Time → Str → List MediaItem → Library → Buckets E → Buckets E
  rescanned now b its lib db =
      let db' = insert_each E b its (delete_library_items E b db) in
      record db' {
        libraries =
            E.put b (record lib { item_count = length its; scanned_at = now }) db'.libraries;
      }

  replace-eq-rescanned :
      (now : Time) (b : Str) (its : List MediaItem) (lib : Library) (db : Buckets E)
      → E.get b db.libraries ≡ some lib
      → replace_library_items_tx E now b its db ≡ ok (rescanned now b its lib db)
  unfolding replace_library_items_tx rescanned
  replace-eq-rescanned now b its lib db e = rw (e, replace_library_items_tx)

  item-rescanned :
      (now : Time) (b : Str) (it : MediaItem) (before after : List MediaItem) (lib : Library)
      (db : Buckets E)
      → All (λ (x : MediaItem). str_eq x.id it.id ≡ false) after
      → E.get it.id (rescanned now b (before ++ it ∷ after) lib db).items
        ≡ some (record it { library_id = b })
  unfolding rescanned
  item-rescanned now b it before after lib db h =
      item_inserted b it before after (delete_library_items E b db) h

  index-rescanned :
      (now : Time) (a b i : Str) (its : List MediaItem) (lib : Library) (db : Buckets E)
      → Lacks0 a
      → Lacks0 b
      → str_eq b a ≡ false
      → E.get (idx_key a i) (rescanned now b its lib db).idx_item_library
        ≡ E.get (idx_key a i) db.idx_item_library
  unfolding rescanned delete_library_items
  index-rescanned now a b i its lib db ha hb n =
      index-insert_each a b i its (delete_library_items E b db) ha hb n
      ∙ other_index a b i (indexed_ids E b db.idx_item_library) db ha hb n

  library-rescanned :
      (now : Time) (a b : Str) (its : List MediaItem) (lib : Library) (db : Buckets E)
      → str_eq b a ≡ false
      → E.get a (rescanned now b its lib db).libraries ≡ E.get a db.libraries
  unfolding rescanned delete_library_items
  library-rescanned now a b its lib db n =
      E.get-put b a _ _
      ∙ (rw n)
      ∙ ap (λ (ls : E.Bucket Library). E.get a ls)
          (libraries-insert_each b its (delete_library_items E b db)
            ∙ libraries-delete_each b (indexed_ids E b db.idx_item_library) db)

  -- Deleting a library deletes whatever its index names.
  delete_library-gone :
      (a i : Str) (la : Library) (s : BoltStore E)
      → ((n : ℕ) → s.commit_ok n ≡ true)
      → E.get a s.db.libraries ≡ some la
      → E.get (idx_key a i) s.db.idx_item_library ≡ some tt
      → get_item E i (delete_library E a s).1 ≡ err not_found
  unfolding get_item delete_library delete_library_tx
  delete_library-gone a i la s cs e filed =
      let db : Buckets E = record s.db { libraries = E.delete a s.db.libraries } in
      let gone : E.get i (delete_library_items E a db).items ≡ none =
        get-delete_each E a i (indexed_ids E a db.idx_item_library) db
        ∙ (rw (elem-indexed_ids E a i db.idx_item_library) (rw filed)) in
      rw
        (db-update (delete_library_tx E a) s (delete_library_items E a db) cs
          (rw (e, delete_library_tx)))
        (rw (gone, get_item))

  -- An item that is filed in library `a` and that a scan of library `b` meets too, as the last one of
  -- its identity, is then the item of `b`, and deleting library `a` deletes it all the same. Both
  -- libraries are there, their identities differ and hold no zero byte, and every transaction commits.
  pub stale_index :
      (now : Time) (a b : Str) (it : MediaItem) (before after : List MediaItem) (la lb : Library)
      (s : BoltStore E)
      → Lacks0 a
      → Lacks0 b
      → str_eq b a ≡ false
      → ((n : ℕ) → s.commit_ok n ≡ true)
      → E.get a s.db.libraries ≡ some la
      → E.get b s.db.libraries ≡ some lb
      → E.get (idx_key a it.id) s.db.idx_item_library ≡ some tt
      → All (λ (x : MediaItem). str_eq x.id it.id ≡ false) after
      → (get_item E it.id (replace_library_items E now b (before ++ it ∷ after) s).1
          ≡ ok (record it { library_id = b }))
        × (get_item E it.id
              (delete_library E a (replace_library_items E now b (before ++ it ∷ after) s).1).1
            ≡ err not_found)
  unfolding get_item delete_library replace_library_items
  stale_index now a b it before after la lb s ha hb n cs ea eb filed last =
      let its = before ++ it ∷ after in
      let db : Buckets E = rescanned now b its lb s.db in
      let first =
        db-update (replace_library_items_tx E now b its) s db cs
          (replace-eq-rescanned now b its lb s.db eb) in
      rw first (
        (rw (item-rescanned now b it before after lb s.db last, get_item)),
        delete_library-gone a it.id la (record s { db = db; updates = s.updates + 1 }) cs
            (library-rescanned now a b its lb s.db n ∙ ea)
            (index-rescanned now a b it.id its lb s.db ha hb n ∙ filed),
      )
