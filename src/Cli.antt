-- ===== src/Cli.antt =====
-- cli/src: the operator's command line.
pub mod Text
pub mod Decimal
pub mod Arguments
pub mod Interface
pub mod Revert
pub mod Outcome
pub mod Config
pub mod Step
pub mod Deploy
pub mod Checks
pub mod Verify
pub mod App
pub mod Smoke
pub mod Stellar
pub mod Main
