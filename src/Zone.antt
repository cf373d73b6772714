-- ===== src/Zone.antt =====
-- internal/zone: the in-memory zone.
pub mod RrSet
pub mod Node
pub mod Hash
pub mod Index
pub mod Entries
pub mod Canonical
pub mod Store
