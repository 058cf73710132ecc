-- ===== src/Alerts.antt =====
-- internal/alerts: the threshold alerts.
pub mod Engine
pub mod Sync
pub mod Rounds
pub mod Evaluate
pub mod Kinds
pub mod Levels
pub mod Fired
pub mod Restart
pub mod History
pub mod Faults
pub mod Tests
