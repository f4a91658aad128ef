-- ===== src/Server.antt =====
-- The crate aw-server.
pub mod Access
