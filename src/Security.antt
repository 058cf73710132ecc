-- ===== src/Security.antt =====
-- internal/security: the parser of the auth log and the security snapshot.
pub mod Search
pub mod AuthLog
pub mod Patterns
pub mod Recorded
pub mod Ingest
pub mod Occurrences
pub mod Updates
pub mod Snapshot
pub mod Tests
