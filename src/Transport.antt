-- ===== src/Transport.antt =====
-- internal/transport: the paths of a client, one for each network interface.
pub mod Paths
pub mod Output
pub mod Recycle
pub mod Changes
pub mod Open
pub mod Watcher
pub mod Starting
