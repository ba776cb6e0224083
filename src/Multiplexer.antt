-- ===== src/Multiplexer.antt =====
-- src/lib/stream_multiplexer.rs: many tcp streams over one message stream.
pub mod Message
pub mod Flow
pub mod Socket
pub mod Tracker
pub mod Server
mod Tests
