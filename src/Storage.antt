-- ===== src/Storage.antt =====
-- internal/storage: the SQLite database behind its statements.
mod Schema
mod Session
mod Alerts
mod Thresholds
mod Purge
mod Checks
mod Events
mod Integrity
mod Groups
mod Sources
mod Rows
mod Unique
mod Open
mod Tests
unfoldable pub use Schema.*
unfoldable pub use Session.*
unfoldable pub use Alerts.*
unfoldable pub use Thresholds.*
unfoldable pub use Purge.*
unfoldable pub use Checks.*
unfoldable pub use Events.*
unfoldable pub use Integrity.*
unfoldable pub use Groups.*
pub use Sources.*
pub use Rows.*
pub use Unique.*
unfoldable pub use Open.*
