-- ===== src/Throughput.antt =====
-- throughput/src
pub mod Bandwidth
pub mod Direction
pub mod Args
