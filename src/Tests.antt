-- ===== src/Tests.antt =====
mod Values
mod Transforms
mod Privacy
mod Datastore
mod Buckets
mod KeyValues
mod Sync
mod Activity
mod Worker
mod Access
mod Storage
mod Peers
mod Pairing
mod Trash
