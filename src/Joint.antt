-- ===== src/Joint.antt =====
-- internal/client and internal/server together: what the one sends is what the other takes.
pub mod Headers
pub mod Paths
pub mod Heartbeat
pub mod Registration
pub mod Rewriting
pub mod Delivery
pub mod Relay
