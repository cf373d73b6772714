-- ===== src/Xfr.antt =====
-- internal/xfr: what a transfer's records mean.
pub mod Ixfr
pub mod Client
