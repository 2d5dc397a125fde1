-- ===== src/Latency/Args.antt =====
-- The options of `latency` (latency/src/args.rs), as `clap` or a configuration file hands them over.
use Prim.Native.String.{String}
use niceperf.Prelude.{ℕ, Option, List}
use niceperf.Common.Os.{IpAddr}

pub record CommonOpts : Type 0 where
  pub len : Option ℕ
  pub interval : Option ℕ
  pub count : Option ℕ
  pub iface : Option String
  pub duration : Option ℕ
  pub file : Option String
  pub preload : Option ℕ

pub record TcpOpts : Type 0 where
  pub dst_port : ℕ
  pub dst_addr : IpAddr
  pub cc : Option String
  pub mss : Option ℕ

pub record UdpOpts : Type 0 where
  pub dst_port : ℕ
  pub dst_addr : IpAddr

pub record QuicOpts : Type 0 where
  pub dst_port : ℕ
  pub dst_addr : IpAddr

pub data ProtocolType : Type 0 where
  tcp : TcpOpts → ProtocolType
  udp : UdpOpts → ProtocolType
  quic : QuicOpts → ProtocolType

pub record Config : Type 0 where
  pub common_opts : CommonOpts
  pub proto : ProtocolType

pub data ConfigType : Type 0 where
  file : String → ConfigType
  protocol : ProtocolType → CommonOpts → ConfigType

pub record Client : Type 0 where
  pub config_type : ConfigType
  pub dst_addr : IpAddr
  pub dst_port : ℕ
  pub cert_path : Option String

pub record Server : Type 0 where
  pub listen_addr : IpAddr
  pub listen_port : ℕ
  pub data_port_range : Option (List ℕ)

pub data Modes : Type 0 where
  server : Server → Modes
  client : Client → Modes

pub record Opts : Type 0 where
  pub mode : Modes
