-- ===== src/Client.antt =====
-- internal/client: the client, from its configuration to its packets.
pub mod State
pub mod Checksum
pub mod Binding
pub mod Sending
pub mod Receiving
pub mod Running
pub mod Startup
