-- ===== src/Tests/Bolting.antt =====
-- The bbolt datastore's theorems at concrete histories.
use cubozoa.Prelude.{str_lt, ◌≡◌, refl, true, List, [], ◌∷◌, codes, str_eq, ok, err, arith}
use cubozoa.Prelude.Map
use cubozoa.Prelude.Map.{IsMap}
use cubozoa.Store.Models.{Library, MediaItem, Session}
use cubozoa.Store.State.{not_found}
use cubozoa.Store.Exec as Json
use cubozoa.Store.Exec.{
  Mutation, create_user, create_session, create_library, delete_library, replace_library_items,
}
use cubozoa.Store.Reads.{Lacks0}
use cubozoa.Store.Preserve.{empty-IsValid}
use cubozoa.Store.Bolt.Engine.{from_key}
use cubozoa.Store.Bolt.State.{BoltStore, empty_buckets}
use cubozoa.Store.Bolt.Catalog
use cubozoa.Store.Bolt.Exec as Bolt
use cubozoa.Store.Bolt.Index.{Indexed}
use cubozoa.Store.Bolt.Keeps.{empty-Indexed, run-Indexed, AllPermitted}
use cubozoa.Store.Bolt.Agree.{Agrees}
use cubozoa.Store.Bolt.History.{run_refines, bolt_answers, json_answers, BothAdmit}
use cubozoa.Store.Bolt.Stale.{stale_index}
use cubozoa.Tests.Bucket.{ordered, put_entry}
use cubozoa.Tests.Fixtures.{host, alice, films, film}
use cubozoa.Tests.Storing.{blank}

abbrev fresh : BoltStore ordered
fresh = record {
  server_id = codes "server";
  db = empty_buckets ordered;
  commit_ok = λ n. true;
  updates = 0;
}

abbrev signed_in : Session
signed_in = record {
  id = codes "s1";
  user_id = codes "u1";
  token_hash = codes "#t";
  client = [];
  device = [];
  device_id = [];
  app_version = [];
  remote_addr = [];
  created_at = 1;
  last_activity = 1;
}

abbrev history : List Mutation
history =
    create_session signed_in
    ∷ create_library films
    ∷ replace_library_items 5 (codes "l1") (film ∷ [])
    ∷ create_user alice
    ∷ []

l1_clean : Lacks0 (codes "l1")
l1_clean = omega arith

l2_clean : Lacks0 (codes "l2")
l2_clean = omega arith

history_permitted : AllPermitted ordered host.fold history fresh
unfolding Bolt.exec Map.get str_eq
history_permitted = ((refl, refl), (tt, ((l1_clean, (tt, tt, tt, tt)), (tt, tt))))

history_admitted : BothAdmit ordered host.fold history fresh blank
unfolding Bolt.exec Map.get str_eq
history_admitted = (tt, (refl, refl), (tt, tt, (tt, (l1_clean, (tt, tt, tt, tt)), (tt, tt, tt))))

run-Indexed_example : Indexed ordered (Bolt.run ordered host.fold history fresh).db
run-Indexed_example =
    run-Indexed ordered host.fold history fresh history_permitted (empty-Indexed ordered)

run_refines_example :
    (bolt_answers ordered host.fold history fresh ≡ json_answers host.fold history blank)
    × Agrees ordered
        (Bolt.run ordered host.fold history fresh).db
        (Json.run host.fold history blank).mem
run_refines_example =
    run_refines ordered host.fold history fresh blank (λ n. refl) (λ n. refl) history_admitted
      ((λ k. refl), (λ k. refl), (λ k. refl), (λ k. refl), (λ k. refl), (λ k. refl), (λ k. refl))
      (empty-Indexed ordered) (empty-IsValid host.fold)

abbrev filled : BoltStore ordered
filled = Bolt.run ordered host.fold history fresh

one_session : IsMap (Json.run host.fold history blank).mem.sessions
unfolding Json.run Map.get Map.put str_eq
one_session = (refl, tt)

-- A library whose root lies within the other's.
abbrev nested : Library
nested = record films { id = codes "l2"; path = codes "/films/classics" }

abbrev two_libraries : BoltStore ordered
two_libraries =
    Bolt.run ordered host.fold
      (create_library films
        ∷ create_library nested
        ∷ replace_library_items 5 (codes "l1") (film ∷ [])
        ∷ [])
      fresh

abbrev trailer : MediaItem
trailer = record film { id = codes "i8" }

stale_index_example :
    (Catalog.get_item ordered film.id
        (Catalog.replace_library_items ordered 6 (codes "l2") (trailer ∷ film ∷ []) two_libraries).1
      ≡ ok (record film { library_id = codes "l2" }))
    × (Catalog.get_item ordered film.id
          (Catalog.delete_library ordered
            (codes "l1")
            (Catalog.replace_library_items ordered 6
              (codes "l2")
              (trailer ∷ film ∷ [])
              two_libraries).1).1
        ≡ err not_found)
unfolding Bolt.run Map.get str_eq put_entry str_lt from_key
stale_index_example =
    stale_index ordered 6 (codes "l1") (codes "l2") film (trailer ∷ []) []
      (record films { item_count = 1; scanned_at = 5 }) nested two_libraries l1_clean l2_clean refl
      (λ n. refl) refl refl refl tt
