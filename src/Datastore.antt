-- ===== src/Datastore.antt =====
-- The crate aw-datastore.
pub mod Privacy
pub mod Store
pub mod Events
pub mod Query
pub mod Heartbeat
pub mod Buckets
pub mod KeyValues
pub mod Cache
pub mod Requests
pub mod Worker
