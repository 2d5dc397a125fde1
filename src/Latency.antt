-- ===== src/Latency.antt =====
-- latency/src
pub mod Args
pub mod Protocol
pub mod Conn
pub mod Runner
pub mod Test
pub mod Control
pub mod Session
mod Runs
