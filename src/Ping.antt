-- ===== src/Ping.antt =====
-- ping/src
pub mod Args
pub mod Logger
pub mod Task
pub mod LogTask
pub mod Icmp
pub mod Echo
pub mod Udp
pub mod Tcp
pub mod Start
pub mod Main
pub mod Session
