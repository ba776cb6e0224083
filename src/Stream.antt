-- ===== src/Stream.antt =====
-- src/lib/reconnecting_stream.rs: a message stream that survives the loss of its tcp connection.
pub mod Codec
pub mod State
pub mod Session
pub mod Delivery
pub mod Runner
pub mod Wire
mod Tests
