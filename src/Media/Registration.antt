-- ===== src/Media/Registration.antt =====
-- What registering libraries does to the store (internal/media/service.go).
use cubozoa.Prelude.{
  ◌≡◌, ◌≢◌, refl, ap, ◌∙◌, Bool, false, Option, none, some, List, [], ◌∷◌, Str, str_eq, str_eq_refl,
  arith, any, find, Option-cases, inl, inr, Result, ok, err, Result-cases,
}
use cubozoa.Prelude.Map
use cubozoa.Prelude.Map.{values, find-put}
use cubozoa.Store.Models.{Time, Library}
use cubozoa.Store.State.{Mem, JsonStore, StoreError, conflict, not_found}
use cubozoa.Store.Catalog.{create_library, get_library_by_path}
use cubozoa.Store.Reads.{mem_of_commit}
use cubozoa.Media.Library.{register_library, registered, new_library}

any-find-none : {A : Type 0} (p : A → Bool) (xs : List A) → find p xs ≡ none → any p xs ≡ false
any-find-none p [] h = refl
any-find-none p (x ∷ xs) h = ground (arith, any-find-none p xs)

abbrev on_path : Str → Library → Bool
on_path p l = str_eq l.path p

abbrev found_on : Option Library → Result StoreError Library
found_on none = err not_found
found_on (some l) = ok l

-- A library that is created on a new path is the one that a lookup of the path finds.
created_lem :
    (lib : Library) (s : JsonStore)
    → find (on_path lib.path) (values s.mem.libraries) ≡ none
    → get_library_by_path lib.path (create_library lib s).1 ≡ ok lib
unfolding create_library get_library_by_path
created_lem lib s h =
    let fresh = any-find-none (on_path lib.path) (values s.mem.libraries) h in
    let m : Mem = record s.mem { libraries = Map.put lib.id lib s.mem.libraries } in
    rw (fresh, create_library)
      (ap (λ (x : Mem). found_on (find (on_path lib.path) (values x.libraries))) (mem_of_commit m s)
        ∙ ap found_on
            (find-put (on_path lib.path) lib.id lib s.mem.libraries fresh (str_eq_refl lib.path)))

registered-store :
    (lib : Library) (r : Result StoreError (Unit {0}) × JsonStore) → (registered lib r).1 ≡ r.1
unfolding registered
registered-store lib (ok _, s) = refl
registered-store lib (err conflict, s) = refl
registered-store lib (err e, s) = refl

registered_sound :
    (new lib : Library) (r : Result StoreError (Unit {0}) × JsonStore)
    → (registered new r).0 ≡ ok lib
    → new ≡ lib
unfolding registered
registered_sound new lib (ok _, s) h = cc
registered_sound new lib (err conflict, s) h = cc
registered_sound new lib (err e, s) h = absurd (cc)

find_of_missing :
    (p : Str) (s : JsonStore) (x : StoreError)
    → get_library_by_path p s ≡ err x
    → find (on_path p) (values s.mem.libraries) ≡ none
unfolding get_library_by_path
find_of_missing p s x h = ground arith

module _ (abs : Str → Option Str) (hash_id : Str → Str) where
  -- A path that is found is not registered again.
  known_path :
      (now : Time) (name lib_type path p : Str) (s : JsonStore) (lib : Library)
      → abs path ≡ some p
      → get_library_by_path p s ≡ ok lib
      → register_library abs hash_id now name lib_type path s ≡ (ok lib, s)
  unfolding register_library
  known_path now name ty path p s lib e f = rw (e, register_library) (rw (f, register_library))

  -- After a registration its path leads to the library that it answered with.
  after_registration :
      (now : Time) (name lib_type path p : Str) (s : JsonStore) (lib : Library)
      → abs path ≡ some p
      → (register_library abs hash_id now name lib_type path s).0 ≡ ok lib
      → get_library_by_path p (register_library abs hash_id now name lib_type path s).1 ≡ ok lib
  unfolding register_library new_library
  after_registration now name ty path p s lib e h = elim (Result-cases (get_library_by_path p s)) [
    | inr (old, f) ↦
        let first = known_path now name ty path p s old e f in rw first (f ∙ rw first at h)
    | inl (x, f) ↦
        let new = new_library hash_id now name ty p in
        let first : register_library abs hash_id now name ty path s
            ≡ registered new (create_library new s) =
          rw (e, register_library) (rw (f, register_library)) in
        let same : new ≡ lib = registered_sound new lib (create_library new s) (rw first at h) in
        rw first (
          ap (λ (t : JsonStore). get_library_by_path p t)
            (registered-store new (create_library new s))
          ∙ created_lem new s (find_of_missing p s x f)
          ∙ ap ok same)
  ]

  unresolved :
      (now : Time) (name lib_type path : Str) (s : JsonStore) (lib : Library)
      → abs path ≡ none
      → (register_library abs hash_id now name lib_type path s).0 ≢ ok lib
  unfolding register_library
  unresolved now name ty path s lib e h = ground arith

  -- A path that was registered is registered: the call answers with the same library and changes
  -- nothing, whatever name and type it is given.
  pub register_library_twice :
      (now later : Time) (name name' lib_type lib_type' path : Str) (s : JsonStore) (lib : Library)
      → (register_library abs hash_id now name lib_type path s).0 ≡ ok lib
      → register_library abs hash_id later name' lib_type' path
          (register_library abs hash_id now name lib_type path s).1
        ≡ (ok lib, (register_library abs hash_id now name lib_type path s).1)
  register_library_twice now later name name' ty ty' path s lib h = elim (Option-cases (abs path)) [
    | inl e ↦ absurd (unresolved now name ty path s lib e h)
    | inr (p, e) ↦
        known_path later name' ty' path p _ lib e (after_registration now name ty path p s lib e h)
  ]
