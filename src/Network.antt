-- ===== src/Network.antt =====
-- net/network.c: the command server.
pub mod Limiter
pub mod Text
pub mod Wire
pub mod Session
pub mod Queue
mod Tests
mod QueueTests
