-- ===== src/Server.antt =====
-- SyncServer (src/server/SyncServer.cpp): one connection in synchronisation mode.
pub mod Tasks
pub mod Session
