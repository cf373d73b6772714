-- ===== src/Monitor.antt =====
-- internal/monitor: the state of each zone and the refresh cycle.
pub mod Runtime
pub mod Serial
pub mod Manager
pub mod Refresh
pub mod Zones
