-- ===== src/Store.antt =====
-- internal/store: the models, the JSON store and its operations.
pub mod Models
pub mod State
pub mod Accounts
pub mod Catalog
pub mod Playback
pub mod Exec
pub mod Durable
pub mod Invariant
pub mod Preserve
pub mod Reads
pub mod Bolt
