-- ===== src/Ping/Args.antt =====
-- The options of `ping` (ping/src/args.rs), as `clap` hands them over.
use Prim.Native.String.{String}
use niceperf.Prelude.{ℕ, Bool, Option}
use niceperf.Common.Os.{IpAddr}

pub record CommonOpts : Type 0 where
  pub len : Option ℕ
  pub interval : Option ℕ
  pub count : Option ℕ
  pub iface : Option String
  pub duration : Option ℕ
  pub file : Option String
  pub preload : Option ℕ
  pub log : Option Bool
  pub dst_addr : IpAddr
  pub src_addr : Option IpAddr

pub record TcpOpts : Type 0 where
  pub common_opts : CommonOpts
  pub dst_port : ℕ
  pub src_port : Option ℕ
  pub cc : Option String
  pub mss : Option ℕ

pub record UdpOpts : Type 0 where
  pub common_opts : CommonOpts
  pub dst_port : ℕ
  pub src_port : Option ℕ

pub record IcmpOpts : Type 0 where
  pub common_opts : CommonOpts

pub data Protocol : Type 0 where
  tcp : TcpOpts → Protocol
  udp : UdpOpts → Protocol
  icmp : IcmpOpts → Protocol

pub data Modes : Type 0 where
  server : Protocol → Modes
  client : Protocol → Modes

pub record Opts : Type 0 where
  pub mode : Modes
  pub dont_fragment : Option Bool
