-- ===== src/Store/Bolt.antt =====
-- The bbolt datastore: internal/store/boltstore.go.
pub mod Engine
pub mod State
pub mod Accounts
pub mod Catalog
pub mod Playback
pub mod Scan
pub mod Exec
pub mod Index
pub mod Renew
pub mod Keeps
pub mod Agree
pub mod Refine
pub mod History
pub mod Reads
pub mod Stale
pub mod Listing
