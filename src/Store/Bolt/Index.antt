-- ===== src/Store/Bolt/Index.antt =====
-- The secondary indexes of internal/store/boltstore.go against the buckets that they index.
use cubozoa.Prelude.{
  ◌≡◌, refl, Bool, true, false, ◌&&◌, List, [], ◌∷◌, none, some, Option, Str, str_eq, str_eq_iff,
  arith, All, All-map, subst, if◌then◌else◌, Bool-cases, Option-cases, inl, inr,
}
use cubozoa.Store.Models.{Session, MediaItem}
use cubozoa.Store.Reads.{Lacks0, key_test}
use cubozoa.Store.Bolt.Engine.{Engine}
use cubozoa.Store.Bolt.State.{Buckets, idx_key}
use cubozoa.Store.Bolt.Catalog.{delete_library_item, delete_each, insert_item}
use cubozoa.Store.Bolt.Scan.{held, elem}

abbrev pub points : Str → Option Str → Bool
points id none = false
points id (some j) = str_eq j id

pub points-eq-some : (id : Str) (o : Option Str) → points id o ≡ true → o ≡ some id
points-eq-some id none h = cc
points-eq-some id (some j) h = ground (arith, str_eq_iff j id)

abbrev pub has_hash : Str → Option Session → Bool
has_hash h none = false
has_hash h (some sess) = str_eq sess.token_hash h

abbrev pub in_library : Str → Option MediaItem → Bool
in_library l none = false
in_library l (some it) = str_eq it.library_id l

abbrev in_parent : Str → Option MediaItem → Bool
in_parent p none = false
in_parent p (some it) = str_eq it.parent_id p

-- "entity IDs never contain" the separator.
abbrev IsClean : Option MediaItem → Type 0
IsClean none = Unit
IsClean (some it) = Lacks0 it.library_id × Lacks0 it.parent_id

abbrev ItemsIndexed :
    (E : Engine) → E.Bucket MediaItem → E.Bucket (Unit {0}) → E.Bucket (Unit {0}) → Type 0
ItemsIndexed E items by_library by_parent =
    ((id : Str) → IsClean (E.get id items))
    × ((l id : Str)
        → Lacks0 l
        → held (E.get (idx_key l id) by_library) ≡ in_library l (E.get id items))
    × ((p id : Str)
        → Lacks0 p
        → held (E.get (idx_key p id) by_parent) ≡ in_parent p (E.get id items))

-- A token hash points at a session exactly if the session has that hash, and an item stands in the
-- index under a library or a parent exactly if it is in that library or under that parent.
pub record IndexedBy (E : Engine) (sessions : E.Bucket Session) (by_token : E.Bucket Str)
    (media : E.Bucket MediaItem) (by_library by_parent : E.Bucket (Unit {0})) : Type 0 where
  pub tokens : (h id : Str) → points id (E.get h by_token) ≡ has_hash h (E.get id sessions)
  pub items : ItemsIndexed E media by_library by_parent

abbrev pub Indexed : (E : Engine) → Buckets E → Type 0
Indexed E db =
    IndexedBy E db.sessions db.idx_session_token db.items db.idx_item_library db.idx_item_parent

pub key_lem :
    (a b i j : Str)
    → Lacks0 a
    → Lacks0 b
    → str_eq (idx_key a i) (idx_key b j) ≡ str_eq a b && str_eq i j
unfolding idx_key
key_lem a b i j ha hb = key_test a b i j ha hb

-- The item is absent, or it is in the library.
abbrev pub Fits : Str → Option MediaItem → Type 0
Fits l none = Unit
Fits l (some it) = str_eq it.library_id l ≡ true

module _ (E : Engine) where
  IsClean-delete :
      (i id : Str) (items : E.Bucket MediaItem)
      → IsClean (E.get id items)
      → IsClean (E.get id (E.delete i items))
  IsClean-delete i id items h = elim (Bool-cases (str_eq i id)) [
    | inl e ↦ rw (E.get-delete i id items) (rw e tt)
    | inr e ↦ rw (E.get-delete i id items) (rw e h)
  ]

  IsClean-put :
      (i id : Str) (it : MediaItem) (items : E.Bucket MediaItem)
      → Lacks0 it.library_id
      → Lacks0 it.parent_id
      → IsClean (E.get id items)
      → IsClean (E.get id (E.put i it items))
  IsClean-put i id it items hl hp h = elim (Bool-cases (str_eq i id)) [
    | inl e ↦ rw (E.get-put i id it items) (rw e (hl, hp))
    | inr e ↦ rw (E.get-put i id it items) (rw e h)
  ]

  delete_absent-ItemsIndexed :
      (l i : Str) (items : E.Bucket MediaItem) (by_library by_parent : E.Bucket (Unit {0}))
      → Lacks0 l
      → E.get i items ≡ none
      → ItemsIndexed E items by_library by_parent
      → ItemsIndexed E (E.delete i items) (E.delete (idx_key l i) by_library) by_parent
  delete_absent-ItemsIndexed l i items by_library by_parent hl absent (clean, lib, par) = (
    λ id. IsClean-delete i id items (clean id),
    λ m id hm. ground (
      arith,
      E.get-delete i id items,
      E.get-delete (idx_key l i) (idx_key m id) by_library,
      key_lem l m i id hl hm,
      str_eq_iff i id,
      lib m id hm,
    ),
    λ p id hp. ground (arith, E.get-delete i id items, str_eq_iff i id, par p id hp),
  )

  delete_present-ItemsIndexed :
      (l i : Str) (it : MediaItem) (items : E.Bucket MediaItem)
      (by_library by_parent : E.Bucket (Unit {0}))
      → Lacks0 l
      → E.get i items ≡ some it
      → it.library_id ≡ l
      → ItemsIndexed E items by_library by_parent
      → ItemsIndexed E
          (E.delete i items)
          (E.delete (idx_key l i) by_library)
          (E.delete (idx_key it.parent_id i) by_parent)
  delete_present-ItemsIndexed l i it items by_library by_parent hl present home (clean, lib, par) =
      let own : IsClean (some it) = subst IsClean present (clean i) in
      (
        λ id. IsClean-delete i id items (clean id),
        λ m id hm. ground (
          arith,
          E.get-delete i id items,
          E.get-delete (idx_key l i) (idx_key m id) by_library,
          key_lem l m i id hl hm,
          str_eq_iff i id,
          str_eq_iff l m,
          str_eq_iff it.library_id m,
          lib m id hm,
        ),
        λ p id hp. ground (
          arith,
          E.get-delete i id items,
          E.get-delete (idx_key it.parent_id i) (idx_key p id) by_parent,
          key_lem it.parent_id p i id own.1 hp,
          str_eq_iff i id,
          par p id hp,
        ),
      )

  -- One round of the deletion keeps the indexes, if the item is of that library or is not there.
  delete_library_item-Indexed :
      (l i : Str) (db : Buckets E)
      → Lacks0 l
      → Fits l (E.get i db.items)
      → Indexed E db
      → Indexed E (delete_library_item E l i db)
  unfolding delete_library_item
  delete_library_item-Indexed l i db hl f x = elim (Option-cases (E.get i db.items)) [
    | inl e ↦ record {
      tokens = x.tokens;
      items = rw e (delete_absent-ItemsIndexed l i db.items _ _ hl e x.items);
    }
    | inr (it, e) ↦
        let fits : Fits l (some it) = subst (Fits l) e f in
        record {
          tokens = x.tokens;
          items = rw e (
              delete_present-ItemsIndexed l i it db.items _ _ hl e ((str_eq_iff _ _).0 fits)
                x.items);
        }
  ]

  Fits-delete :
      (l i k : Str) (db : Buckets E)
      → Fits l (E.get k db.items)
      → Fits l (E.get k (delete_library_item E l i db).items)
  unfolding delete_library_item
  Fits-delete l i k db h = elim (Bool-cases (str_eq i k)) [
    | inl e ↦ rw (E.get-delete i k db.items) (rw e tt)
    | inr e ↦ rw (E.get-delete i k db.items) (rw e h)
  ]

  pub delete_each-Indexed :
      (l : Str) (ids : List Str) (db : Buckets E)
      → Lacks0 l
      → All (λ (i : Str). Fits l (E.get i db.items)) ids
      → Indexed E db
      → Indexed E (delete_each E l ids db)
  unfolding delete_each
  delete_each-Indexed l [] db hl f x = x
  delete_each-Indexed l (i ∷ ids) db hl (f, fs) x =
      delete_each-Indexed l ids _ hl (All-map (λ k. Fits-delete l i k db) ids fs)
        (delete_library_item-Indexed l i db hl f x)

  pub get-delete_each :
      (l k : Str) (ids : List Str) (db : Buckets E)
      → E.get k (delete_each E l ids db).items ≡ (if elem k ids then none else E.get k db.items)
  unfolding delete_each delete_library_item
  get-delete_each l k [] db = refl
  get-delete_each l k (i ∷ ids) db =
      ground
        (arith, get-delete_each l k ids (delete_library_item E l i db), E.get-delete i k db.items)

  -- An item that was not there is filed in both indexes.
  pub insert_item-Indexed :
      (l : Str) (it : MediaItem) (db : Buckets E)
      → Lacks0 l
      → Lacks0 it.parent_id
      → E.get it.id db.items ≡ none
      → Indexed E db
      → Indexed E (insert_item E l it db)
  unfolding insert_item
  insert_item-Indexed l it db hl hp absent x =
      let (clean, lib, par) = x.items in
      record {
        tokens = x.tokens;
        items = (
          λ id. IsClean-put it.id id _ db.items hl hp (clean id),
          λ m id hm. ground (
            arith,
            E.get-put it.id id (record it { library_id = l }) db.items,
            E.get-put (idx_key l it.id) (idx_key m id) tt db.idx_item_library,
            key_lem l m it.id id hl hm,
            str_eq_iff it.id id,
            lib m id hm,
          ),
          λ p id hq. ground (
            arith,
            E.get-put it.id id (record it { library_id = l }) db.items,
            E.get-put (idx_key it.parent_id it.id) (idx_key p id) tt db.idx_item_parent,
            key_lem it.parent_id p it.id id hp hq,
            str_eq_iff it.id id,
            par p id hq,
          ),
        );
      }
