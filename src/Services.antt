-- ===== src/Services.antt =====
-- internal/services: the states of systemd services.
pub mod Monitor
pub mod Parsing
pub mod Tests
