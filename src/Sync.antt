-- ===== src/Sync.antt =====
-- The crate aw-sync-rust.
pub mod Conflict
pub mod Merge
pub mod Notes
pub mod Todos
pub mod Activity
pub mod Storage
pub mod PairCode
pub mod Discovery
pub mod Manager
pub mod Trash
pub mod Snapshot
