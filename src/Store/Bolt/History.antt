-- ===== src/Store/Bolt/History.antt =====
-- Histories of internal/store/boltstore.go beside those of internal/store/jsonstore.go.
use cubozoa.Prelude.{◌≡◌, refl, ap, ◌∙◌, Bool, true, List, [], ◌∷◌, Str, arith, Result, ℕ, ap₂}
use cubozoa.Store.State.{JsonStore, StoreError}
use cubozoa.Store.Invariant.{IsValid, Allowed}
use cubozoa.Store.Exec as Json
use cubozoa.Store.Exec.{
  Mutation, create_user, update_user, create_library, delete_library, replace_library_items,
  delete_session, touch_session, create_session, upsert_user_item_data, create_recording,
  update_recording, delete_recording, create_series_timer, delete_series_timer, close,
}
use cubozoa.Store.Bolt.Engine.{Engine}
use cubozoa.Store.Bolt.State.{BoltStore}
use cubozoa.Store.Bolt.Exec as Bolt
use cubozoa.Store.Bolt.Index.{Indexed}
use cubozoa.Store.Bolt.Keeps.{Permits, exec-Indexed}
use cubozoa.Store.Bolt.Agree.{Agrees}
use cubozoa.Store.Preserve.{exec-IsValid}
use cubozoa.Store.Bolt.Refine.{exec-Match}

-- What the callers owe along a history that both stores run.
abbrev pub BothAdmit : (E : Engine) → (Str → Str) → List Mutation → BoltStore E → JsonStore → Type 0
BothAdmit E fold [] s j = Unit
BothAdmit E fold (op ∷ ops) s j =
    Allowed fold op j.mem
    × Permits E op s.db
    × BothAdmit E fold ops (Bolt.exec E fold op s).1 (Json.exec fold op j).1

-- The answers along a history.
abbrev pub bolt_answers :
    (E : Engine) → (Str → Str) → List Mutation → BoltStore E → List (Result StoreError (Unit {0}))
bolt_answers E fold [] s = []
bolt_answers E fold (op ∷ ops) s =
    (Bolt.exec E fold op s).0 ∷ bolt_answers E fold ops (Bolt.exec E fold op s).1

abbrev pub json_answers :
    (Str → Str) → List Mutation → JsonStore → List (Result StoreError (Unit {0}))
json_answers fold [] j = []
json_answers fold (op ∷ ops) j =
    (Json.exec fold op j).0 ∷ json_answers fold ops (Json.exec fold op j).1

module _ (E : Engine) (fold : Str → Str) where
  commit_ok-exec :
      (op : Mutation) (s : BoltStore E) → (Bolt.exec E fold op s).1.commit_ok ≡ s.commit_ok
  unfolding Bolt.exec
  commit_ok-exec (create_user u) s = ground arith
  commit_ok-exec _ s = ground arith

  write_ok-exec : (op : Mutation) (j : JsonStore) → (Json.exec fold op j).1.write_ok ≡ j.write_ok
  unfolding Json.exec
  write_ok-exec (create_user u) j = ground arith
  write_ok-exec _ j = ground arith

  -- Whatever history the two stores run, every answer is the same and their contents agree at the end,
  -- if no transaction and no flush fails.
  pub run_refines :
      (ops : List Mutation) (s : BoltStore E) (j : JsonStore)
      → ((n : ℕ) → s.commit_ok n ≡ true)
      → ((n : ℕ) → j.write_ok n ≡ true)
      → BothAdmit E fold ops s j
      → Agrees E s.db j.mem
      → Indexed E s.db
      → IsValid fold j.mem
      → (bolt_answers E fold ops s ≡ json_answers fold ops j)
        × Agrees E (Bolt.run E fold ops s).db (Json.run fold ops j).mem
  unfolding Bolt.run Json.run
  run_refines [] s j cs cj a g x h = (refl, g)
  run_refines (op ∷ ops) s j cs cj (allowed, permits, rest) g x h =
      let (same, next) = exec-Match E fold s j (cs s.updates) (cj j.flushes) g x h op permits in
      let (answers, end) =
        run_refines ops (Bolt.exec E fold op s).1 (Json.exec fold op j).1
          (λ n. ap (λ (f : ℕ → Bool). f n) (commit_ok-exec op s) ∙ cs n)
          (λ n. ap (λ (f : ℕ → Bool). f n) (write_ok-exec op j) ∙ cj n) rest next
          (exec-Indexed E fold op s permits x) (exec-IsValid fold op j allowed h) in
      (ap₂ ◌∷◌ same answers, end)
