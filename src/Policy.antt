-- ===== src/Policy.antt =====
-- internal/policy: the verdicts compared against what the operator allowed.
pub mod Types
pub mod Check
pub mod Load
pub mod Init
