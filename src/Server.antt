-- ===== src/Server.antt =====
-- cmd/server/main.go: the start of the program, its loops, and what they do with the parts.
pub mod Address
pub mod Collector
pub mod Ticks
pub mod Loops
pub mod Program
pub mod Frames
pub mod Writes
pub mod Requests
pub mod Keeping
pub mod Soundness
pub mod Broadcasts
pub mod Tests
