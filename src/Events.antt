-- ===== src/Events.antt =====
-- crates/events: the records of the state changes that the contract applies.
pub mod Kinds
pub mod Emit
