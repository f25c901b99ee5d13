-- ===== src/Store/Reads.antt =====
-- What the reads of the JSON store return after its mutations.
use cubozoa.Prelude.{
  ◌≡◌, ◌≢◌, refl, sym, ap, ◌∙◌, Bool, false, ◌&&◌, some, none, Option, inl, inr, List, [], ◌∷◌,
  ◌++◌, Str, str_eq, str_eq_iff, Bool-cases, arith, All, Result, ok, err, if◌then◌else◌,
}
use cubozoa.Prelude.Map.{Map, get, get-put, get-drop_where, find-some, find-get, IsMap, unless}
use cubozoa.Store.Models.{Time, User, Library, MediaItem, UserItemData}
use cubozoa.Store.State.{Mem, JsonStore, commit, flush_locked, StoreError, not_found}
use cubozoa.Store.Accounts.{equal_fold, get_user_by_name}
use cubozoa.Store.Catalog.{insert_items, replace_library_items}
use cubozoa.Store.Playback.{get_user_item_data, upsert_user_item_data}
use cubozoa.Store.Invariant.{UsersValid}

-- A read that answers `not_found` for an absent entry.
abbrev answer : Option User → Result StoreError User
answer none = err not_found
answer (some u) = ok u

some_of_ok : (o : Option User) (u : User) → answer o ≡ ok u → o ≡ some u
some_of_ok o u h = ground arith

module _ (fold : Str → Str) where
  -- A lookup by name finds the user whose name folds alike, whatever order the map is visited in.
  pub get_user_by_name-eq-ok :
      (s : JsonStore) (k name : Str) (u : User)
      → UsersValid fold s.mem.users
      → get k s.mem.users ≡ some u
      → fold u.name ≡ fold name
      → get_user_by_name fold name s ≡ ok u
  unfolding get_user_by_name
  get_user_by_name-eq-ok s k name u h g e =
      let p : (User → Bool) = λ v. equal_fold fold v.name name in
      let (w, f) = find-get p k u s.mem.users g ((str_eq_iff _ _).1 e) in
      let (j, gw, pw) = find-some p w s.mem.users h.is_map f in
      let same : j ≡ k = h.distinct j k w u gw g ((str_eq_iff _ _).0 pw ∙ sym e) in
      rw (f, get_user_by_name) (ap answer (sym gw ∙ ap (λ (x : Str). get x s.mem.users) same ∙ g))

  -- What `GetUserByName` finds is a stored user whose name folds alike.
  get_user_by_name_sound :
      (s : JsonStore) (name : Str) (u : User)
      → UsersValid fold s.mem.users
      → get_user_by_name fold name s ≡ ok u
      → (get u.id s.mem.users ≡ some u) × (fold u.name ≡ fold name)
  unfolding get_user_by_name
  get_user_by_name_sound s name u h f =
      let p : (User → Bool) = λ v. equal_fold fold v.name name in
      let (k, g, pu) = find-some p u s.mem.users h.is_map (some_of_ok _ u f) in
      (ap (λ (x : Str). get x s.mem.users) (h.filed k u g) ∙ g, (str_eq_iff _ _).0 pu)

-- Inserting fresh items leaves every other identity as it was.
get-insert_items :
    (library_id k : Str) (fresh : List MediaItem) (m : Map MediaItem)
    → All (λ (it : MediaItem). str_eq it.id k ≡ false) fresh
    → get k (insert_items library_id fresh m) ≡ get k m
unfolding insert_items
get-insert_items library_id k [] m h = refl
get-insert_items library_id k (it ∷ fresh) m (h, hs) =
    get-insert_items library_id k fresh _ hs ∙ get-put it.id k _ m ∙ (rw h)

abbrev pub of_library : Str → MediaItem → Bool
of_library id it = str_eq it.library_id id

pub mem_of_commit : (m : Mem) (s : JsonStore) → (commit m s).1.mem ≡ m
unfolding flush_locked
mem_of_commit m s = elim (Bool-cases (s.write_ok s.flushes)) [ inl e ↦ rw e | inr e ↦ rw e ]

-- After a library is replaced, an identity that is not among the fresh items reads as before, except
-- that an item of that library is gone.
pub get_item-replace :
    (now : Time) (id k : Str) (lib : Library) (fresh : List MediaItem) (s : JsonStore)
    → IsMap s.mem.items
    → get id s.mem.libraries ≡ some lib
    → All (λ (it : MediaItem). str_eq it.id k ≡ false) fresh
    → get k (replace_library_items now id fresh s).1.mem.items
      ≡ unless (of_library id) (get k s.mem.items)
unfolding replace_library_items
get_item-replace now id k lib fresh s h g absent =
    rw (g, replace_library_items)
      (ap (λ (m : Mem). get k m.items) (mem_of_commit _ s)
        ∙ get-insert_items id k fresh _ absent
        ∙ get-drop_where (of_library id) k s.mem.items h)

-- The keys of two users' data differ if neither identity holds a zero byte.
abbrev pub Lacks0 : Str → Type 0
Lacks0 = All (λ c. c ≢ 0)

user_data_key-injective :
    (a b i j : Str) → Lacks0 a → Lacks0 b → a ++ 0 ∷ i ≡ b ++ 0 ∷ j → (a ≡ b) × (i ≡ j)
user_data_key-injective [] [] i j ha hb e = (refl, cc)
user_data_key-injective [] (y ∷ b) i j ha (hy, hb) e = absurd (ground arith)
user_data_key-injective (x ∷ a) [] i j (hx, ha) hb e = absurd (ground arith)
user_data_key-injective (x ∷ a) (y ∷ b) i j (hx, ha) (hy, hb) e =
    let (p, q) = user_data_key-injective a b i j ha hb (cc) in (cc, q)

pub key_test :
    (a b i j : Str)
    → Lacks0 a
    → Lacks0 b
    → str_eq (a ++ 0 ∷ i) (b ++ 0 ∷ j) ≡ str_eq a b && str_eq i j
key_test a b i j ha hb = ground (
  arith,
  str_eq_iff (a ++ 0 ∷ i) (b ++ 0 ∷ j),
  str_eq_iff a b,
  str_eq_iff i j,
  user_data_key-injective a b i j ha hb,
)

-- After an upsert, the pair's data is what was stored, and every other pair's data is as before.
pub get_user_item_data-upsert :
    (d : UserItemData) (user item : Str) (s : JsonStore)
    → Lacks0 d.user_id
    → Lacks0 user
    → get_user_item_data user item (upsert_user_item_data d s).1 ≡ (
        if str_eq d.user_id user
        then (if str_eq d.item_id item then ok d else get_user_item_data user item s)
        else get_user_item_data user item s)
unfolding get_user_item_data upsert_user_item_data
get_user_item_data-upsert d user item s ha hb = ground (
  arith,
  get-put (d.user_id ++ 0 ∷ d.item_id) (user ++ 0 ∷ item) d s.mem.user_data,
  key_test d.user_id user d.item_id item ha hb,
)
