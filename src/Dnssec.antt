-- ===== src/Dnssec.antt =====
-- internal/dnssec: the findings of a verification and the checks that produce them.
pub mod Findings
pub mod Crypto
pub mod Keys
pub mod Result
pub mod Codes
pub mod Verify
pub mod Denial
pub mod Zonemd
pub mod Hygiene
pub mod Apex
pub mod Full
pub mod Incremental
