-- ===== src/Jhttp.antt =====
-- The package jhttp: JSON-RPC over HTTP.
pub mod Bridge
pub mod Channel
pub mod Getter
mod Tests
