-- ===== src/Server.antt =====
-- internal/server: the relay server. Its state, and a module for each part of server.go and webapi.go.
pub mod State
pub mod Pool
pub mod Send
pub mod Heartbeat
pub mod Data
pub mod Cleanup
pub mod Admin
pub mod Stats
pub mod Queries
