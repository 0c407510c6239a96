-- ===== src/Tracking.antt =====
-- The package src/app/tracking: what a call costs, and how much may be spent.
pub mod Cost
pub mod SpendGuard
pub mod Tracker
