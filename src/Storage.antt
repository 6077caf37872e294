-- ===== src/Storage.antt =====
-- crates/storage: the contract's state, key by key, and what it stands for.
pub mod Keys
pub mod Entries
pub mod Registry
pub mod Classes
