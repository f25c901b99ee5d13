-- ===== src/Tests/Storing.antt =====
-- The store's theorems at concrete histories.
use cubozoa.Prelude.{◌≡◌, refl, ◌⊎◌, true, none, [], ◌∷◌, codes, ok}
use cubozoa.Store.State.{JsonStore, Persisted, empty_mem, open_json, read_file}
use cubozoa.Jellyfin.AuthHeader.{runes}
use cubozoa.Store.Exec.{exec, run, create_user, delete_library, close, create_library}
use cubozoa.Store.Durable
use cubozoa.Store.Invariant.{IsValid}
use cubozoa.Store.Preserve.{run-IsValid, empty-IsValid}
use cubozoa.Tests.Fixtures.{host, alice, films, store, flaky}

abbrev pub blank : JsonStore
blank = record { mem = empty_mem; disk = none; write_ok = λ n. true; flushes = 0 }

exec-Effect_example :
    Durable.Effect store
      (exec host.fold (delete_library (codes "l1")) store).0
      (exec host.fold (delete_library (codes "l1")) store).1
exec-Effect_example = Durable.exec-Effect host.fold (delete_library (codes "l1")) store

run-HoldsPrefix_example :
    ((run host.fold (create_library films ∷ close ∷ close ∷ []) flaky).disk ≡ flaky.disk)
    ⊎ Durable.HoldsPrefix host.fold
        (create_library films ∷ close ∷ close ∷ [])
        flaky
        (run host.fold (create_library films ∷ close ∷ close ∷ []) flaky).disk
run-HoldsPrefix_example =
    Durable.run-HoldsPrefix host.fold (create_library films ∷ close ∷ close ∷ []) flaky

run-IsValid_example :
    IsValid host.fold (run host.fold (create_user alice ∷ create_library films ∷ []) blank).mem
run-IsValid_example =
    run-IsValid host.fold (create_user alice ∷ create_library films ∷ []) blank (tt, (tt, tt))
      (empty-IsValid host.fold)

-- JSON text as it treats the identity of a store.
abbrev reread : Persisted → Persisted
reread p = record p { server_id = runes p.server_id }

open_json-exec_example :
    open_json
      (exec host.fold close store).1.disk
      (read_file reread (exec host.fold close store).1.disk)
      none
      (λ n. true)
    ≡ ok (record {
      mem = (exec host.fold close store).1.mem;
      disk = (exec host.fold close store).1.disk;
      write_ok = λ n. true;
      flushes = 0;
    })
unfolding exec runes
open_json-exec_example =
    Durable.open_json-exec host.fold reread close store none (λ n. true) refl refl refl
