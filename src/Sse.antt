-- ===== src/Sse.antt =====
-- internal/sse: the broker of the server-sent events.
pub mod Broker
pub mod Steps
pub mod Fanout
pub mod Safe
pub mod Joining
pub mod Closing
pub mod Safety
pub mod Leak
pub mod Delivery
pub mod Frames
pub mod Ids
pub mod Tests
