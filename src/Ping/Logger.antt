-- ===== src/Ping/Logger.antt =====
-- The rows that the ping clients log (ping/src/logger.rs). `f64` is the parameter `F`.
use Prim.Native.String.{String}
use niceperf.Prelude.{ℕ}

pub record PingResult (F : Type 0) : Type 0 where
  pub seq : ℕ
  pub unique_seq : ℕ
  pub ttl : ℕ
  pub rtt : F
  pub size : ℕ
  pub send_timestamp : ℕ
  pub recv_timestamp : ℕ
  pub dst_addr : String
  pub src_addr : String

pub record UdpEchoResult (F : Type 0) : Type 0 where
  pub seq : ℕ
  pub send_timestamp : ℕ
  pub server_timestamp : ℕ
  pub recv_timestamp : ℕ
  pub rtt : F
  pub size : ℕ
  pub src_addr : String
  pub dst_addr : String

pub record TcpEchoResult (F : Type 0) : Type 0 where
  pub seq : ℕ
  pub send_timestamp : ℕ
  pub server_timestamp : ℕ
  pub recv_timestamp : ℕ
  pub rtt : F
  pub size : ℕ
  pub src_addr : String
  pub dst_addr : String
  pub cc : String
  pub retrans : ℕ
