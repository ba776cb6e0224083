-- ===== src/Tunnel.antt =====
-- src/lib/reconnecting_stream.rs and src/lib/stream_multiplexer.rs together: the bytes of one tcp
-- connection, from the socket at one end of the tunnel to the socket at the other.
pub mod Arrives
pub mod Bytes
pub mod Channel
pub mod Loss
pub mod Tests
