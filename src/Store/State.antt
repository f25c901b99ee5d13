-- ===== src/Store/State.antt =====
-- The JSON store's state, its file and the atomic flush (internal/store/jsonstore.go, the top half).
-- The file `cubozoa.json` is the document that its text encodes. Whether the n-th write of it (the
-- temporary file and the rename) succeeds is the environment's choice, `write_ok`.
use cubozoa.Prelude.{
  ℕ, ◌+◌, Bool, [], Option, none, some, Str, is_empty, Result, ok, err, if◌then◌else◌,
}
use cubozoa.Prelude.Map.{Map}
use cubozoa.Store.Models.{User, Session, Library, MediaItem, UserItemData, Recording, SeriesTimer}

-- `ErrNotFound`, `ErrConflict`, a failed write, and a file or random source that cannot be read.
pub data StoreError : Type 0 where
  not_found conflict write_failed read_failed parse_failed no_random : StoreError

-- The maps of `jsonStore`, with the server's identity.
pub record Mem : Type 0 where
  pub server_id : Str
  pub users : Map User
  pub sessions : Map Session
  pub libraries : Map Library
  pub items : Map MediaItem
  pub user_data : Map UserItemData
  pub recordings : Map Recording
  pub series_timers : Map SeriesTimer

-- The on-disk schema. A map that is absent or `null` is `none`.
pub record Persisted : Type 0 where
  pub version : ℕ
  pub server_id : Str
  pub users : Option (Map User)
  pub sessions : Option (Map Session)
  pub libraries : Option (Map Library)
  pub items : Option (Map MediaItem)
  pub user_data : Option (Map UserItemData)
  pub recordings : Option (Map Recording)
  pub series_timers : Option (Map SeriesTimer)

pub record JsonStore : Type 0 where
  pub mem : Mem
  pub disk : Option Persisted
  pub write_ok : ℕ → Bool
  pub flushes : ℕ

abbrev schema_version : ℕ
schema_version = 1

-- The document whose text a flush writes.
abbrev pub to_persisted : Mem → Persisted
to_persisted m = record {
  version = schema_version;
  server_id = m.server_id;
  users = some m.users;
  sessions = some m.sessions;
  libraries = some m.libraries;
  items = some m.items;
  user_data = some m.user_data;
  recordings = some m.recordings;
  series_timers = some m.series_timers;
}

-- What a store operation does: the new store, and its result or its error.
abbrev pub Op : Type 0 → Type 0
Op A = JsonStore → Result StoreError A × JsonStore

-- `flushLocked`: the file is replaced whole, or stays as it was.
unfoldable pub flush_locked : Op (Unit {0})
flush_locked s =
    if s.write_ok s.flushes
    then (ok tt, record s { disk = some (to_persisted s.mem); flushes = s.flushes + 1 })
    else (err write_failed, record s { flushes = s.flushes + 1 })

-- The end of every mutation: the changed maps, then the flush.
abbrev pub commit : Mem → Op (Unit {0})
commit m s = flush_locked (record s { mem = m })

abbrev pub empty_mem : Mem
empty_mem = record {
  server_id = [];
  users = [];
  sessions = [];
  libraries = [];
  items = [];
  user_data = [];
  recordings = [];
  series_timers = [];
}

-- What `os.ReadFile` and `json.Unmarshal` say of the file.
pub data ReadResult : Type 0 where
  not_exist unreadable malformed : ReadResult
  document : Persisted → ReadResult

abbrev or_empty : {V : Type 0} → Option (Map V) → Map V
or_empty none = []
or_empty (some m) = m

unfoldable load : ReadResult → Result StoreError Mem
load not_exist = ok empty_mem
load unreadable = err read_failed
load malformed = err parse_failed
load (document p) = ok (record {
  server_id = p.server_id;
  users = or_empty p.users;
  sessions = or_empty p.sessions;
  libraries = or_empty p.libraries;
  items = or_empty p.items;
  user_data = or_empty p.user_data;
  recordings = or_empty p.recordings;
  series_timers = or_empty p.series_timers;
})

-- `reread` is what `json.Unmarshal` makes of the text that `json.MarshalIndent` makes of a document: bytes
-- that are no UTF-8 come back as U+FFFD.
abbrev pub read_file : (Persisted → Persisted) → Option Persisted → ReadResult
read_file reread none = not_exist
read_file reread (some p) = document (reread p)

-- The second half of `OpenJSON`: a store without an identity is given one, and flushed.
unfoldable with_identity : Option Str → JsonStore → Result StoreError JsonStore
unfolding flush_locked
with_identity none s = if is_empty s.mem.server_id then err no_random else ok s
with_identity (some id) s =
    let named = flush_locked (record s { mem = record s.mem { server_id = id } }) in
    if is_empty s.mem.server_id then elim named.0 [ ok _ ↦ ok named.1 | err e ↦ err e ] else ok s

-- `OpenJSON` on a data directory that exists. `id` is what `security.NewID` returns if it is asked.
unfoldable pub open_json :
    Option Persisted → ReadResult → Option Str → (ℕ → Bool) → Result StoreError JsonStore
unfolding load with_identity
open_json disk r id write_ok = elim (load r) [
  | err e ↦ err e
  | ok m ↦ with_identity id (record { mem = m; disk = disk; write_ok = write_ok; flushes = 0 })
]
