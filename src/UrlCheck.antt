-- ===== src/UrlCheck.antt =====
-- internal/urlcheck: the checks of the user's URLs.
pub mod Checker
pub mod Probe
pub mod Running
pub mod Stopping
pub mod Changes
pub mod Numbers
pub mod Changed
pub mod Starting
pub mod Loop
pub mod Ending
pub mod Tests
