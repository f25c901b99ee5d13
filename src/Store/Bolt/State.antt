-- ===== src/Store/Bolt/State.antt =====
-- The buckets of internal/store/boltstore.go, its transactions and OpenBolt.
-- A value of a bucket stands for the JSON text that the code stores. Whether the n-th write
-- transaction goes through, its puts included, is the environment's choice, `commit_ok`.
use cubozoa.Prelude.{
  ℕ, ◌+◌, Bool, Option, none, some, List, [], ◌∷◌, ◌++◌, Str, Result, ok, err, if◌then◌else◌, codes,
}
use cubozoa.Store.Models.{User, Session, Library, MediaItem, UserItemData, Recording, SeriesTimer}
use cubozoa.Store.State.{StoreError, write_failed, no_random}
use cubozoa.Store.Bolt.Engine.{Engine}
use cubozoa.Prelude.{has_prefix}

pub record Buckets (E : Engine) : Type 0 where
  pub meta : E.Bucket Str
  pub users : E.Bucket User
  pub sessions : E.Bucket Session
  pub libraries : E.Bucket Library
  pub items : E.Bucket MediaItem
  pub user_data : E.Bucket UserItemData
  pub recordings : E.Bucket Recording
  pub series_timers : E.Bucket SeriesTimer
  pub idx_session_token : E.Bucket Str
  pub idx_item_library : E.Bucket (Unit {0})
  pub idx_item_parent : E.Bucket (Unit {0})

pub record BoltStore (E : Engine) : Type 0 where
  pub server_id : Str
  pub db : Buckets E
  pub commit_ok : ℕ → Bool
  pub updates : ℕ

-- `metaServerID`
abbrev meta_server_id : Str
meta_server_id = codes "server_id"

-- `idxKey` and `idxPrefix`: the first dimension, a zero byte, and the second.
unfoldable pub idx_key : Str → Str → Str
idx_key a b = a ++ (0 ∷ b)

unfoldable pub idx_prefix : Str → Str
idx_prefix a = a ++ (0 ∷ [])

-- The loop of `forEachPrefix` stops at the first key without the prefix.
unfoldable pub while_prefix : {V : Type 0} → Str → List (Str × V) → List (Str × V)
while_prefix prefix [] = []
while_prefix prefix ((k, v) ∷ m) =
    let rest = while_prefix prefix m in if has_prefix k prefix then (k, v) ∷ rest else []

module _ (E : Engine) where
  unfoldable pub for_each_prefix : {V : Type 0} → E.Bucket V → Str → List (Str × V)
  unfolding while_prefix
  for_each_prefix b prefix = while_prefix prefix (E.seek prefix b)

  -- What a store operation does.
  abbrev pub Op : Type 0
  Op = BoltStore E → Result StoreError (Unit {0}) × BoltStore E

  -- What the body of a write transaction does to the buckets.
  abbrev pub Tx : Type 0
  Tx = Buckets E → Result StoreError (Buckets E)

  -- `db.Update`: the body's changes are kept whole, or not at all.
  unfoldable pub update : Tx → Op
  update body s = elim (body s.db) [
    | err e ↦ (err e, s)
    | ok db ↦
        if s.commit_ok s.updates
        then (ok tt, record s { db = db; updates = s.updates + 1 })
        else (err write_failed, record s { updates = s.updates + 1 })
  ]

  abbrev pub empty_buckets : Buckets E
  empty_buckets = record {
    meta = E.empty;
    users = E.empty;
    sessions = E.empty;
    libraries = E.empty;
    items = E.empty;
    user_data = E.empty;
    recordings = E.empty;
    series_timers = E.empty;
    idx_session_token = E.empty;
    idx_item_library = E.empty;
    idx_item_parent = E.empty;
  }

  abbrev found : Option (Buckets E) → Buckets E
  found none = empty_buckets
  found (some db) = db

  abbrev opened : (ℕ → Bool) → Str → Buckets E → Result StoreError (BoltStore E)
  opened commit_ok id db =
      if commit_ok 0
      then ok (record { server_id = id; db = db; commit_ok = commit_ok; updates = 1 })
      else err write_failed

  -- `OpenBolt` on a data directory that exists. `disk` is the database found there, or the failure to
  -- open it, and `id` is what `security.NewID` returns if it is asked.
  unfoldable open_bolt :
      Result StoreError (Option (Buckets E))
      → Option Str
      → (ℕ → Bool)
      → Result StoreError (BoltStore E)
  open_bolt (err e) id commit_ok = err e
  open_bolt (ok disk) id commit_ok =
      let db = found disk in
      elim (E.get meta_server_id db.meta) [
        | some v ↦ opened commit_ok v db
        | none ↦ elim id [
          | none ↦ err no_random
          | some i ↦ opened commit_ok i (record db { meta = E.put meta_server_id i db.meta })
        ]
      ]
