-- ===== src/Metrics.antt =====
-- internal/metrics: the connections of the machine, its load, memory, disks and network, and the program itself.
pub mod Network
pub mod Counts
pub mod Readings
pub mod App
pub mod System
pub mod Sampling
pub mod Interfaces
pub mod Tests
