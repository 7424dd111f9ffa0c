-- ===== src/Protocol.antt =====
-- internal/protocol: the wire format and the deduplication of sequence numbers.
pub mod Dedup
pub mod Packet
