-- ===== src/Programs.antt =====
-- The programs around the two layers: src/lib/server.rs, src/lib/client.rs, src/lib/server_check_port.rs,
-- and src/bin/mobiletunnel.rs.
pub mod Host
pub mod Processes
pub mod KillOld
pub mod Check
pub mod Ssh
pub mod Serve
pub mod Join
pub mod Client
pub mod Halves
pub mod Launch
pub mod Tests
