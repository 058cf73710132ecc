-- ===== src/Http.antt =====
-- internal/http: the handlers of the JSON interface and the middleware around them.
pub mod Messages
pub mod Handlers
pub mod Latest
pub mod History
pub mod Lifetime
pub mod Routes
pub mod Table
pub mod Access
pub mod Entry
pub mod Tests
