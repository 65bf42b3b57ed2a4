-- ===== src/Exchange.antt =====
-- client.go and server.go together: a call, its request on the server, and its reply.
pub mod Calls
pub mod Client
pub mod Messages
pub mod Server
mod Tests
