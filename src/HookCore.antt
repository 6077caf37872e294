-- ===== src/HookCore.antt =====
-- crates/hook-core: the vocabulary that every other part speaks.
pub mod Party
pub mod Operation
pub mod Reason
pub mod Decision
pub mod Context
pub mod Codes
pub mod Roles
