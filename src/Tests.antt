-- ===== src/Tests.antt =====
-- Tests of the definitions on small inputs, and the theorems applied to them.
pub mod Zones
pub mod Transfers
pub mod Reports
pub mod Cycles
pub mod Rings
pub mod Verdicts
pub mod Checks
pub mod Cuts
pub mod Hooks
pub mod Settings
pub mod Snapshots
pub mod Members
pub mod Runs
