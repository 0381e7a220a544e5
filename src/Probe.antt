-- ===== src/Probe.antt =====
-- internal/probe: what a probe from outside found, folded into the verdicts.
pub mod Ports
pub mod Reconcile
