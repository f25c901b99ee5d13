-- ===== src/Store/Bolt/Refine.antt =====
-- The mutations of internal/store/boltstore.go beside those of internal/store/jsonstore.go.
use cubozoa.Prelude.{
  ◌≡◌, refl, ◌∙◌, true, List, [], ◌∷◌, none, Str, str_eq, arith, if◌then◌else◌, length,
}
use cubozoa.Prelude.Map
use cubozoa.Prelude.Map.{Map, IsMap, values, get-put, get-drop_where, unless, drop_where-IsMap}
use cubozoa.Store.Models.{MediaItem, User, Library}
use cubozoa.Store.State.{Mem, JsonStore, not_found, conflict}
use cubozoa.Store.Accounts.{equal_fold}
use cubozoa.Store.Catalog.{insert_items}
use cubozoa.Store.Reads.{Lacks0, of_library}
use cubozoa.Store.Invariant.{IsValid}
use cubozoa.Store.Exec as Json
use cubozoa.Store.Exec.{
  Mutation, create_user, update_user, create_library, delete_library, replace_library_items,
  delete_session, touch_session, create_session, upsert_user_item_data, create_recording,
  update_recording, delete_recording, create_series_timer, delete_series_timer, close,
}
use cubozoa.Store.Bolt.Engine.{Engine}
use cubozoa.Store.Bolt.State.{Buckets, BoltStore}
use cubozoa.Store.Bolt.Accounts
use cubozoa.Store.Bolt.Catalog
use cubozoa.Store.Bolt.Playback
use cubozoa.Store.Bolt.Catalog.{
  delete_library_items, delete_each, insert_each, insert_item, delete_library_item, indexed_ids,
}
use cubozoa.Store.Bolt.Exec as Bolt
use cubozoa.Store.Bolt.Index.{Indexed, in_library}
use cubozoa.Store.Bolt.Keeps.{Permits}
use cubozoa.Store.Bolt.Renew.{get-delete_library_items}
use cubozoa.Store.Bolt.Agree.{
  Agrees, Same, Match, Same-put, Same-delete, any-entries, update-commit, Match-unless, Match-found,
}

module _ (E : Engine) where
  -- The loops over the items leave the other primary buckets alone.
  delete_each_beside :
      (l : Str) (ids : List Str) (b : E.Bucket MediaItem) (db : Buckets E) (m : Mem)
      → Agrees E (record db { items = b }) m
      → Agrees E (record (delete_each E l ids db) { items = b }) m
  unfolding delete_each delete_library_item
  delete_each_beside l [] b db m g = g
  delete_each_beside l (i ∷ ids) b db m g =
      delete_each_beside l ids b (delete_library_item E l i db) m g

  insert_each_beside :
      (l : Str) (items : List MediaItem) (b : E.Bucket MediaItem) (db : Buckets E) (m : Mem)
      → Agrees E (record db { items = b }) m
      → Agrees E (record (insert_each E l items db) { items = b }) m
  unfolding insert_each insert_item
  insert_each_beside l [] b db m g = g
  insert_each_beside l (it ∷ items) b db m g =
      insert_each_beside l items b (insert_item E l it db) m g

  unless-Same :
      (l k : Str) (b : E.Bucket MediaItem) (items : Map MediaItem)
      → IsMap items
      → Same E b items
      → (if in_library l (E.get k b) then none else E.get k b)
        ≡ Map.get k (Map.drop_where (of_library l) items)
  unless-Same l k b items hm h = ground (arith, get-drop_where (of_library l) k items hm, h k)

  delete_library_items-Agrees :
      (l : Str) (db : Buckets E) (m : Mem)
      → Lacks0 l
      → IsMap m.items
      → Indexed E db
      → Agrees E db m
      → Agrees E
          (delete_library_items E l db)
          (record m { items = Map.drop_where (of_library l) m.items })
  unfolding delete_library_items
  delete_library_items-Agrees l db m hl hm x (us, ss, ls, is, ds, rs, ts) =
      delete_each_beside l (indexed_ids E l db.idx_item_library) _ db
        (record m { items = Map.drop_where (of_library l) m.items })
        (
          us,
          ss,
          ls,
          λ k. get-delete_library_items E l k db hl x ∙ unless-Same l k db.items m.items hm is,
          ds,
          rs,
          ts,
        )

  insert_each-Same :
      (l : Str) (fresh : List MediaItem) (db : Buckets E) (items : Map MediaItem)
      → Same E db.items items
      → Same E (insert_each E l fresh db).items (insert_items l fresh items)
  unfolding insert_each insert_item insert_items
  insert_each-Same l [] db items h = h
  insert_each-Same l (it ∷ fresh) db items h =
      insert_each-Same l fresh _ _
        (Same-put E it.id (record it { library_id = l }) db.items items h)

  insert_each-Agrees :
      (l : Str) (fresh : List MediaItem) (db : Buckets E) (m : Mem)
      → Agrees E db m
      → Agrees E (insert_each E l fresh db) (record m { items = insert_items l fresh m.items })
  insert_each-Agrees l fresh db m (us, ss, ls, is, ds, rs, ts) =
      insert_each_beside l fresh _ db (record m { items = insert_items l fresh m.items })
        (us, ss, ls, insert_each-Same l fresh db m.items is, ds, rs, ts)

  put_library-Agrees :
      (id : Str) (lib : Library) (db : Buckets E) (m : Mem)
      → Agrees E db m
      → Agrees E
          (record db { libraries = E.put id lib db.libraries })
          (record m { libraries = Map.put id lib m.libraries })
  put_library-Agrees id lib db m (us, ss, ls, is, ds, rs, ts) =
      (us, ss, Same-put E id lib _ _ ls, is, ds, rs, ts)

module _ (E : Engine) (fold : Str → Str) (s : BoltStore E) (j : JsonStore)
    (cs : s.commit_ok s.updates ≡ true) (cj : j.write_ok j.flushes ≡ true) (g : Agrees E s.db j.mem)
    (x : Indexed E s.db) (h : IsValid fold j.mem) where
  -- A mutation does to the buckets what it does to the maps, and answers alike, if its transaction
  -- and its flush go through.
  pub exec-Match :
      (op : Mutation) → Permits E op s.db → Match E (Bolt.exec E fold op s) (Json.exec fold op j)
  unfolding Bolt.exec Json.exec
  exec-Match (create_user u) p =
      let (us, ss, ls, is, ds, rs, ts) = g in
      Match-unless E s j cs cj g (Accounts.create_user_tx E fold u) conflict _ _ _ _
        (any-entries E (λ (v : User). equal_fold fold v.name u.name) s.db.users j.mem.users
          h.users.is_map us)
        refl (Same-put E (u.id) (u) _ _ us, ss, ls, is, ds, rs, ts)
  exec-Match (update_user u) p =
      let (us, ss, ls, is, ds, rs, ts) = g in
      Match-found E s j cs cj g (Accounts.update_user_tx E u) not_found _ _ _ _ (us u.id) refl
        (λ v e. (Same-put E (u.id) (u) _ _ us, ss, ls, is, ds, rs, ts))
  exec-Match (create_session sess) p =
      let (us, ss, ls, is, ds, rs, ts) = g in
      update-commit E s j (Accounts.create_session_tx E sess) _ _ cs cj refl
        (us, Same-put E (sess.id) (sess) _ _ ss, ls, is, ds, rs, ts)
  exec-Match (delete_session id) p =
      let (us, ss, ls, is, ds, rs, ts) = g in
      Match-found E s j cs cj g (Accounts.delete_session_tx E id) not_found _ _ _ _ (ss id) refl
        (λ v e. (us, Same-delete E id _ _ ss, ls, is, ds, rs, ts))
  exec-Match (touch_session now id) p =
      let (us, ss, ls, is, ds, rs, ts) = g in
      Match-found E s j cs cj g (Accounts.touch_session_tx E now id) not_found _ _ _ _ (ss id) refl
        (λ v e. (us, Same-put E (id) (record v { last_activity = now }) _ _ ss, ls, is, ds, rs, ts))
  exec-Match (create_library l) p =
      let (us, ss, ls, is, ds, rs, ts) = g in
      Match-unless E s j cs cj g (Catalog.create_library_tx E l) conflict _ _ _ _
        (any-entries E (λ (m : Library). str_eq m.path l.path) s.db.libraries j.mem.libraries
          h.catalog.libraries_map ls)
        refl (us, ss, Same-put E (l.id) (l) _ _ ls, is, ds, rs, ts)
  exec-Match (delete_library id) p =
      let (us, ss, ls, is, ds, rs, ts) = g in
      Match-found E s j cs cj g (Catalog.delete_library_tx E id) not_found _ _ _ _ (ls id) refl
        (λ v e.
          delete_library_items-Agrees E id (record s.db { libraries = E.delete id s.db.libraries })
            (record j.mem { libraries = Map.remove id j.mem.libraries }) p h.catalog.items_map x
            (us, ss, Same-delete E id _ _ ls, is, ds, rs, ts))
  exec-Match (replace_library_items now id items) p =
      let (us, ss, ls, is, ds, rs, ts) = g in
      Match-found E s j cs cj g (Catalog.replace_library_items_tx E now id items) not_found _ _ _ _
        (ls id) refl
        (λ v e.
          put_library-Agrees E id (record v { item_count = length items; scanned_at = now })
            (insert_each E id items (delete_library_items E id s.db))
            (record j.mem {
              items = insert_items id items (Map.drop_where (of_library id) j.mem.items);
            })
            (insert_each-Agrees E id items (delete_library_items E id s.db)
              (record j.mem { items = Map.drop_where (of_library id) j.mem.items })
              (delete_library_items-Agrees E id s.db j.mem p.0 h.catalog.items_map x g)))
  exec-Match (upsert_user_item_data d) p =
      let (us, ss, ls, is, ds, rs, ts) = g in
      update-commit E s j (Playback.upsert_user_item_data_tx E d) _ _ cs cj refl
        (us, ss, ls, is, Same-put E (_) (d) _ _ ds, rs, ts)
  exec-Match (create_recording rec) p =
      let (us, ss, ls, is, ds, rs, ts) = g in
      update-commit E s j (Playback.create_recording_tx E rec) _ _ cs cj refl
        (us, ss, ls, is, ds, Same-put E (rec.id) (rec) _ _ rs, ts)
  exec-Match (update_recording rec) p =
      let (us, ss, ls, is, ds, rs, ts) = g in
      Match-found E s j cs cj g (Playback.update_recording_tx E rec) not_found _ _ _ _ (rs rec.id)
        refl (λ v e. (us, ss, ls, is, ds, Same-put E (rec.id) (rec) _ _ rs, ts))
  exec-Match (delete_recording id) p =
      let (us, ss, ls, is, ds, rs, ts) = g in
      Match-found E s j cs cj g (Playback.delete_recording_tx E id) not_found _ _ _ _ (rs id) refl
        (λ v e. (us, ss, ls, is, ds, Same-delete E id _ _ rs, ts))
  exec-Match (create_series_timer st) p =
      let (us, ss, ls, is, ds, rs, ts) = g in
      update-commit E s j (Playback.create_series_timer_tx E st) _ _ cs cj refl
        (us, ss, ls, is, ds, rs, Same-put E (st.id) (st) _ _ ts)
  exec-Match (delete_series_timer id) p =
      let (us, ss, ls, is, ds, rs, ts) = g in
      Match-found E s j cs cj g (Playback.delete_series_timer_tx E id) not_found _ _ _ _ (ts id)
        refl (λ v e. (us, ss, ls, is, ds, rs, Same-delete E id _ _ ts))
  exec-Match close p = rw cj (refl, g)
