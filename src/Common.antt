-- ===== src/Common.antt =====
-- common/src/lib.rs
pub mod Os
pub mod Sockets
pub mod Interfaces
pub mod Statistics
pub mod Logger
pub mod Quic
