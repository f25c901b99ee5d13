-- ===== src/Store/Bolt/Renew.antt =====
-- The item indexes of internal/store/boltstore.go where a library's items are deleted or replaced.
use cubozoa.Prelude.{
  ◌≡◌, refl, ap, ◌∙◌, sym, Bool, true, false, List, [], ◌∷◌, none, some, Option, Str, str_eq,
  str_eq_refl, arith, All, if◌then◌else◌,
}
use cubozoa.Store.Models.{MediaItem}
use cubozoa.Store.Reads.{Lacks0}
use cubozoa.Store.Bolt.Engine.{Engine}
use cubozoa.Store.Bolt.State.{Buckets}
use cubozoa.Store.Bolt.Catalog.{delete_library_items, insert_each, insert_item, indexed_ids}
use cubozoa.Store.Bolt.Scan.{elem, elem-indexed_ids}
use cubozoa.Store.Bolt.Index.{
  Indexed, Fits, in_library, delete_each-Indexed, get-delete_each, insert_item-Indexed,
}

-- What a scan may file into a library: items that are new or the library's own, with distinct
-- identities.
abbrev pub Renews : (E : Engine) → Str → Buckets E → List MediaItem → Type 0
Renews E l db [] = Unit
Renews E l db (it ∷ items) =
    Fits l (E.get it.id db.items)
    × Lacks0 it.parent_id
    × All (λ (j : MediaItem). str_eq it.id j.id ≡ false) items
    × Renews E l db items

All-elem : (P : Str → Type 0) (ids : List Str) → ((k : Str) → elem k ids ≡ true → P k) → All P ids
All-elem P [] h = tt
All-elem P (i ∷ ids) h =
    (h i (ground (arith, str_eq_refl i)), All-elem P ids (λ k e. h k (ground (arith, e))))

Fits-of_in_library : (l : Str) (o : Option MediaItem) → in_library l o ≡ true → Fits l o
Fits-of_in_library l none h = tt
Fits-of_in_library l (some it) h = h

abbrev unless_in : Str → Option MediaItem → Option MediaItem
unless_in l o = if in_library l o then none else o

unless_in-Fits : (l : Str) (o : Option MediaItem) → Fits l o → unless_in l o ≡ none
unless_in-Fits l none h = refl
unless_in-Fits l (some it) h = rw h

module _ (E : Engine) where
  elem-in_library :
      (l k : Str) (db : Buckets E)
      → Lacks0 l
      → Indexed E db
      → elem k (indexed_ids E l db.idx_item_library) ≡ in_library l (E.get k db.items)
  elem-in_library l k db hl x = elem-indexed_ids E l k db.idx_item_library ∙ x.items.1 l k hl

  pub delete_library_items-Indexed :
      (l : Str) (db : Buckets E) → Lacks0 l → Indexed E db → Indexed E (delete_library_items E l db)
  unfolding delete_library_items
  delete_library_items-Indexed l db hl x =
      delete_each-Indexed E l (indexed_ids E l db.idx_item_library) db hl
        (All-elem _ _ (λ k e. Fits-of_in_library l _ (sym (elem-in_library l k db hl x) ∙ e))) x

  -- The items of the library are gone, and no others.
  pub get-delete_library_items :
      (l k : Str) (db : Buckets E)
      → Lacks0 l
      → Indexed E db
      → E.get k (delete_library_items E l db).items ≡ unless_in l (E.get k db.items)
  unfolding delete_library_items
  get-delete_library_items l k db hl x =
      get-delete_each E l k (indexed_ids E l db.idx_item_library) db
      ∙ ap (λ (b : Bool). if b then none else E.get k db.items) (elem-in_library l k db hl x)

  abbrev IsNew : Buckets E → List MediaItem → Type 0
  IsNew db [] = Unit
  IsNew db (it ∷ items) =
      (E.get it.id db.items ≡ none)
      × Lacks0 it.parent_id
      × All (λ (j : MediaItem). str_eq it.id j.id ≡ false) items
      × IsNew db items

  Renews-IsNew :
      (l : Str) (db : Buckets E) (items : List MediaItem)
      → Lacks0 l
      → Indexed E db
      → Renews E l db items
      → IsNew (delete_library_items E l db) items
  Renews-IsNew l db [] hl x h = tt
  Renews-IsNew l db (it ∷ items) hl x (f, p, d, h) = (
    get-delete_library_items l it.id db hl x ∙ unless_in-Fits l _ f,
    p,
    d,
    Renews-IsNew l db items hl x h,
  )

  insert_item-IsNew :
      (l : Str) (it : MediaItem) (db : Buckets E) (items : List MediaItem)
      → All (λ (j : MediaItem). str_eq it.id j.id ≡ false) items
      → IsNew db items
      → IsNew (insert_item E l it db) items
  unfolding insert_item
  insert_item-IsNew l it db [] d h = tt
  insert_item-IsNew l it db (j ∷ items) (e, d) (a, p, d', h) = (
    E.get-put it.id j.id (record it { library_id = l }) db.items ∙ (rw e a),
    p,
    d',
    insert_item-IsNew l it db items d h,
  )

  insert_each-Indexed :
      (l : Str) (items : List MediaItem) (db : Buckets E)
      → Lacks0 l
      → IsNew db items
      → Indexed E db
      → Indexed E (insert_each E l items db)
  unfolding insert_each
  insert_each-Indexed l [] db hl h x = x
  insert_each-Indexed l (it ∷ items) db hl (a, p, d, h) x =
      insert_each-Indexed l items _ hl (insert_item-IsNew l it db items d h)
        (insert_item-Indexed E l it db hl p a x)

  pub replace-Indexed :
      (l : Str) (items : List MediaItem) (db : Buckets E)
      → Lacks0 l
      → Renews E l db items
      → Indexed E db
      → Indexed E (insert_each E l items (delete_library_items E l db))
  replace-Indexed l items db hl r x =
      insert_each-Indexed l items _ hl (Renews-IsNew l db items hl x r)
        (delete_library_items-Indexed l db hl x)
