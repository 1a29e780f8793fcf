-- ===== src/Server.antt =====
-- server.go: the settings of a server, and what becomes of a task when its handler has returned. The
-- world is the one in which the handler returns.
pub mod Config
pub mod Process
pub mod Parked
pub mod Kept
pub mod Attempts
pub mod Chained
pub mod Acked
pub mod Handover
pub mod Handlers
pub mod Fetch
pub mod Loops
pub mod Order
