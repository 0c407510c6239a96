-- ===== src/Monitoring.antt =====
-- The drift monitor of production traffic, src/app/monitoring.
pub mod Ks
pub mod Drift
pub mod Source
