-- ===== src/Tunnel.antt =====
-- internal/tunnel: the detector of the Cloudflare Tunnel.
pub mod Names
pub mod Detector
pub mod Transitions
pub mod Tests
