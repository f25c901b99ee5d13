-- ===== src/Store/Invariant.antt =====
-- The invariant of the memory of internal/store/jsonstore.go.
use cubozoa.Prelude.{
  ◌≡◌, refl, Bool, true, false, some, List, [], ◌∷◌, Str, str_eq, str_eq_iff, str_eq_refl, arith,
  length,
}
use cubozoa.Prelude.Map
use cubozoa.Prelude.Map.{
  Map, IsMap, has, values, get-put, get-remove, get-drop_where, put-IsMap, remove-IsMap,
  drop_where-IsMap, any-get,
}
use cubozoa.Store.Models.{Time, User, Library, MediaItem}
use cubozoa.Store.State.{Mem}
use cubozoa.Store.Catalog.{insert_items}
use cubozoa.Store.Exec.{Mutation, update_user}

-- Every user is filed under its identity, and no two have names that fold alike.
pub record UsersValid (fold : Str → Str) (users : Map User) : Type 0 where
  pub is_map : IsMap users
  pub filed : (k : Str) (u : User) → Map.get k users ≡ some u → u.id ≡ k
  pub distinct :
      (j k : Str) (u v : User)
      → Map.get j users ≡ some u
      → Map.get k users ≡ some v
      → fold u.name ≡ fold v.name
      → j ≡ k

-- Every library is filed under its identity, no two have one path, and each item belongs to a
-- library that is there.
pub record CatalogValid (libraries : Map Library) (items : Map MediaItem) : Type 0 where
  pub libraries_map : IsMap libraries
  pub items_map : IsMap items
  pub filed : (k : Str) (it : MediaItem) → Map.get k items ≡ some it → it.id ≡ k
  pub paths :
      (j k : Str) (l m : Library)
      → Map.get j libraries ≡ some l
      → Map.get k libraries ≡ some m
      → l.path ≡ m.path
      → j ≡ k
  pub homed :
      (k : Str) (it : MediaItem) → Map.get k items ≡ some it → has it.library_id libraries ≡ true

pub record IsValid (fold : Str → Str) (m : Mem) : Type 0 where
  pub users : UsersValid fold m.users
  pub catalog : CatalogValid m.libraries m.items

-- What a caller of `UpdateUser` owes: the name stays.
abbrev pub Allowed : (Str → Str) → Mutation → Mem → Type 0
Allowed fold (update_user u) m =
    (v : User) → Map.get u.id m.users ≡ some v → fold v.name ≡ fold u.name
Allowed fold _ m = Unit

module _ (fold : Str → Str) where
  pub put_new-UsersValid :
      (u : User) (users : Map User)
      → ((k : Str) (v : User)
          → Map.get k users ≡ some v
          → str_eq (fold v.name) (fold u.name) ≡ false)
      → UsersValid fold users
      → UsersValid fold (Map.put u.id u users)
  put_new-UsersValid u users fresh h = record {
    is_map = put-IsMap u.id u users h.is_map;
    filed = λ k v g. ground (arith, get-put u.id k u users, str_eq_iff u.id k, h.filed k v);
    distinct = λ j k v w gj gk e. ground (
      arith,
      get-put u.id j u users,
      get-put u.id k u users,
      str_eq_iff u.id j,
      str_eq_iff u.id k,
      fresh j v,
      fresh k w,
      str_eq_iff (fold v.name) (fold u.name),
      str_eq_iff (fold w.name) (fold u.name),
      h.distinct j k v w,
    );
  }

  pub put_same-UsersValid :
      (u v : User) (users : Map User)
      → Map.get u.id users ≡ some v
      → fold v.name ≡ fold u.name
      → UsersValid fold users
      → UsersValid fold (Map.put u.id u users)
  put_same-UsersValid u x users old same h = record {
    is_map = put-IsMap u.id u users h.is_map;
    filed = λ k v g. ground (arith, get-put u.id k u users, str_eq_iff u.id k, h.filed k v);
    distinct = λ j k v w gj gk e. ground (
      arith,
      get-put u.id j u users,
      get-put u.id k u users,
      str_eq_iff u.id j,
      str_eq_iff u.id k,
      h.distinct j k v w,
      h.distinct u.id k x w,
      h.distinct j u.id v x,
    );
  }

pub create_library-CatalogValid :
    (l : Library) (libraries : Map Library) (items : Map MediaItem)
    → ((k : Str) (x : Library) → Map.get k libraries ≡ some x → str_eq x.path l.path ≡ false)
    → CatalogValid libraries items
    → CatalogValid (Map.put l.id l libraries) items
create_library-CatalogValid l libraries items fresh h = record {
  libraries_map = put-IsMap l.id l libraries h.libraries_map;
  items_map = h.items_map;
  filed = h.filed;
  paths = λ j k x y gj gk e. ground (
    arith,
    get-put l.id j l libraries,
    get-put l.id k l libraries,
    str_eq_iff l.id j,
    str_eq_iff l.id k,
    fresh j x,
    fresh k y,
    str_eq_iff x.path l.path,
    str_eq_iff y.path l.path,
    h.paths j k x y,
  );
  homed = λ k it g. ground (arith, get-put l.id it.library_id l libraries, h.homed k it g);
}

-- A library whose record changes but not its path.
rescan-CatalogValid :
    (id : Str) (l old : Library) (libraries : Map Library) (items : Map MediaItem)
    → Map.get id libraries ≡ some old
    → l.path ≡ old.path
    → CatalogValid libraries items
    → CatalogValid (Map.put id l libraries) items
rescan-CatalogValid id l old libraries items g same h = record {
  libraries_map = put-IsMap id l libraries h.libraries_map;
  items_map = h.items_map;
  filed = h.filed;
  paths = λ j k x y gj gk e. ground (
    arith,
    get-put id j l libraries,
    get-put id k l libraries,
    str_eq_iff id j,
    str_eq_iff id k,
    h.paths j k x y,
    h.paths id k old y,
    h.paths j id x old,
  );
  homed = λ k it gi. ground (arith, get-put id it.library_id l libraries, h.homed k it gi);
}

drop_where-CatalogValid :
    (p : MediaItem → Bool) (libraries : Map Library) (items : Map MediaItem)
    → CatalogValid libraries items
    → CatalogValid libraries (Map.drop_where p items)
drop_where-CatalogValid p libraries items h = record {
  libraries_map = h.libraries_map;
  items_map = drop_where-IsMap p items h.items_map;
  filed = λ k it g. ground (arith, get-drop_where p k items h.items_map, h.filed k it);
  paths = h.paths;
  homed = λ k it g. ground (arith, get-drop_where p k items h.items_map, h.homed k it);
}

pub remove_library-CatalogValid :
    (id : Str) (libraries : Map Library) (items : Map MediaItem)
    → CatalogValid libraries items
    → CatalogValid
        (Map.remove id libraries)
        (Map.drop_where (λ (it : MediaItem). str_eq it.library_id id) items)
remove_library-CatalogValid id libraries items h = record {
  libraries_map = remove-IsMap id libraries h.libraries_map;
  items_map = drop_where-IsMap _ items h.items_map;
  filed = λ k it g. ground (
    arith,
    get-drop_where (λ (x : MediaItem). str_eq x.library_id id) k items h.items_map,
    h.filed k it,
  );
  paths = λ j k x y gj gk e.
      ground (arith, get-remove id j libraries, get-remove id k libraries, h.paths j k x y);
  homed = λ k it g. ground (
    arith,
    get-drop_where (λ (x : MediaItem). str_eq x.library_id id) k items h.items_map,
    get-remove id it.library_id libraries,
    str_eq_iff id it.library_id,
    str_eq_iff it.library_id id,
    h.homed k it,
  );
}

insert_item-CatalogValid :
    (library_id : Str) (it : MediaItem) (libraries : Map Library) (items : Map MediaItem)
    → has library_id libraries ≡ true
    → CatalogValid libraries items
    → CatalogValid libraries (Map.put it.id (record it { library_id = library_id }) items)
insert_item-CatalogValid library_id it libraries items there h =
    let it' = record it { library_id = library_id } in
    record {
      libraries_map = h.libraries_map;
      items_map = put-IsMap it.id it' items h.items_map;
      filed = λ k x g. ground (arith, get-put it.id k it' items, str_eq_iff it.id k, h.filed k x);
      paths = h.paths;
      homed = λ k x g. ground (arith, get-put it.id k it' items, h.homed k x);
    }

insert_items-CatalogValid :
    (library_id : Str) (fresh : List MediaItem) (libraries : Map Library) (items : Map MediaItem)
    → has library_id libraries ≡ true
    → CatalogValid libraries items
    → CatalogValid libraries (insert_items library_id fresh items)
unfolding insert_items
insert_items-CatalogValid library_id [] libraries items there h = h
insert_items-CatalogValid library_id (it ∷ fresh) libraries items there h =
    insert_items-CatalogValid library_id fresh libraries _ there
      (insert_item-CatalogValid library_id it libraries items there h)

pub replace-CatalogValid :
    (now : Time) (id : Str) (lib : Library) (fresh : List MediaItem) (libraries : Map Library)
    (items : Map MediaItem)
    → Map.get id libraries ≡ some lib
    → CatalogValid libraries items
    → CatalogValid
        (Map.put id (record lib { item_count = length fresh; scanned_at = now }) libraries)
        (insert_items id fresh (Map.drop_where (λ (it : MediaItem). str_eq it.library_id id) items))
replace-CatalogValid now id lib fresh libraries items g h =
    let lib' = record lib { item_count = length fresh; scanned_at = now } in
    insert_items-CatalogValid id fresh _ _
      (ground (arith, get-put id id lib' libraries, str_eq_refl id))
      (rescan-CatalogValid id lib' lib libraries _ g refl
        (drop_where-CatalogValid _ libraries items h))
