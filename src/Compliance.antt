-- ===== src/Compliance.antt =====
-- crates/compliance: the gate-ordering pipeline.
pub mod Sac
pub mod Evaluator
