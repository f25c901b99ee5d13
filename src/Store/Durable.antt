-- ===== src/Store/Durable.antt =====
-- What a mutation of the JSON store leaves in memory and in the file, and what a restart reads back.
use cubozoa.Prelude.{
  ◌≡◌, refl, ap, ◌∙◌, ◌⊎◌, inl, inr, Bool, Option, none, some, List, [], ◌∷◌, ◌++◌, Str, is_empty,
  false, Result, ok, err, arith, ℕ,
}
use cubozoa.Store.State.{
  Persisted, JsonStore, StoreError, to_persisted, open_json, read_file, write_failed,
}
use cubozoa.Store.Exec.{Mutation, exec, run, create_user}

-- What one mutation may do to a store `s`, if it answers `r` and leaves `t`.
abbrev pub Effect : JsonStore → Result StoreError Unit → JsonStore → Type 0
Effect s (ok _) t = t.disk ≡ some (to_persisted t.mem)
Effect s (err write_failed) t = t.disk ≡ s.disk
Effect s (err _) t = t ≡ s

-- The file holds the memory after a first part of the history.
abbrev pub HoldsPrefix : (Str → Str) → List Mutation → JsonStore → Option Persisted → Type 0
HoldsPrefix fold ops s disk =
    (before after : List Mutation) × (before ++ after ≡ ops)
    × (disk ≡ some (to_persisted (run fold before s).mem))

saved_of_ok :
    (s t : JsonStore) (r : Result StoreError Unit)
    → r ≡ ok tt
    → Effect s r t
    → t.disk ≡ some (to_persisted t.mem)
saved_of_ok s t (ok _) e f = f
saved_of_ok s t (err _) e f = absurd (cc)

open_json-saved :
    (reread : Persisted → Persisted) (t : JsonStore) (id : Option Str) (write_ok : ℕ → Bool)
    → t.disk ≡ some (to_persisted t.mem)
    → reread (to_persisted t.mem) ≡ to_persisted t.mem
    → is_empty t.mem.server_id ≡ false
    → open_json t.disk (read_file reread t.disk) id write_ok
      ≡ ok (record { mem = t.mem; disk = t.disk; write_ok = write_ok; flushes = 0 })
unfolding open_json
open_json-saved reread t none write_ok e f n = rw e (rw f (ground arith))
open_json-saved reread t (some id) write_ok e f n = rw e (rw f (ground arith))

module _ (fold : Str → Str) where
  -- Every mutation that succeeds has written the whole memory to the file; one whose write fails
  -- leaves the file as it was; one that fails otherwise changes nothing at all.
  pub exec-Effect : (op : Mutation) (s : JsonStore) → Effect s (exec fold op s).0 (exec fold op s).1
  unfolding exec
  exec-Effect (create_user u) s = ground arith
  exec-Effect _ s = ground arith

  Effect-disk :
      (s t : JsonStore) (r : Result StoreError Unit)
      → Effect s r t
      → (t.disk ≡ some (to_persisted t.mem)) ⊎ (t.disk ≡ s.disk)
  Effect-disk s t (ok _) h = inl h
  Effect-disk s t (err write_failed) h = inr h
  Effect-disk s t (err _) h = inr (ap (λ (x : JsonStore). x.disk) h)

  -- Whatever mutations run and whichever writes fail, the file is the one that was there at the
  -- start, or holds all of the memory as it was after some first part of the history: a crash never
  -- finds a half-written store.
  pub run-HoldsPrefix :
      (ops : List Mutation) (s : JsonStore)
      → ((run fold ops s).disk ≡ s.disk) ⊎ HoldsPrefix fold ops s (run fold ops s).disk
  unfolding run
  run-HoldsPrefix [] s = inl refl
  run-HoldsPrefix (op ∷ ops) s = elim (run-HoldsPrefix ops (exec fold op s).1) [
    | inr (before, after, e, d) ↦ inr (op ∷ before, after, ap (◌∷◌ op) e, d)
    | inl kept ↦ elim (Effect-disk s (exec fold op s).1 (exec fold op s).0 (exec-Effect op s)) [
      | inl saved ↦ inr (op ∷ [], ops, refl, kept ∙ saved)
      | inr same ↦ inl (kept ∙ same)
    ]
  ]

  -- After a mutation that succeeded, a restart reads back exactly the memory, provided the store has an
  -- identity and the document of the memory comes back from its JSON text as it was, that is, its
  -- texts are UTF-8.
  pub open_json-exec :
      (reread : Persisted → Persisted) (op : Mutation) (s : JsonStore) (id : Option Str)
      (write_ok : ℕ → Bool)
      → (exec fold op s).0 ≡ ok tt
      → reread (to_persisted (exec fold op s).1.mem) ≡ to_persisted (exec fold op s).1.mem
      → is_empty (exec fold op s).1.mem.server_id ≡ false
      → open_json (exec fold op s).1.disk (read_file reread (exec fold op s).1.disk) id write_ok
        ≡ ok (record {
          mem = (exec fold op s).1.mem;
          disk = (exec fold op s).1.disk;
          write_ok = write_ok;
          flushes = 0;
        })
  open_json-exec reread op s id write_ok h texts named =
      open_json-saved reread (exec fold op s).1 id write_ok
        (saved_of_ok s (exec fold op s).1 (exec fold op s).0 h (exec-Effect op s)) texts named
