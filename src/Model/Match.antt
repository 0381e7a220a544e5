-- ===== src/Model/Match.antt =====
-- internal/model/match.go: one rule against the packet.
pub mod Fields
pub mod Sets
pub mod Xt
pub mod Exprs
pub mod Rule
pub mod Safety
pub mod Order
pub mod Interval
pub mod Resolved
pub mod Ports
