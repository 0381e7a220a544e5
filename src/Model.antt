-- ===== src/Model.antt =====
-- internal/model: what becomes of a packet, given only a snapshot of the host.
pub mod Packet
pub mod Match
pub mod Traverse
pub mod Forwards
pub mod Evaluate
