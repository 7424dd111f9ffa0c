-- ===== src/Tests.antt =====
-- Runs of the definitions at concrete inputs, a module for each part.
mod Dedup
mod Packet
mod Pool
mod Relay
mod Sessions
mod Transport
mod Config
mod Client
mod Joint
mod Watcher
mod Web
mod Windows
mod Mobile
mod Gui
mod Queries
