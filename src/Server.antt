-- ===== src/Server.antt =====
-- server.go: the server in modules. Tasks holds what becomes of one batch, from the assignment of
-- handlers to the responses; its children prove it.
mod Tests
pub mod Barrier
pub mod State
pub mod Steps
pub mod System
pub mod Tasks
