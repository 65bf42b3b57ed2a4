-- ===== src/Handler.antt =====
-- The package handler: assigners, and functions adapted to handlers.
pub mod Args
pub mod Assign
pub mod Check
pub mod Params
mod Tests
