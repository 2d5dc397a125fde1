-- ===== src/Throughput/Args.antt =====
-- The options of `throughput` (throughput/src/args.rs), as `clap` hands them over, and its `main`
-- (throughput/src/main.rs), which only prints those of a client.
use Prim.Native.String.{String}
use niceperf.Prelude.{ℕ, Bool, Option}
use niceperf.Prelude.Outcome.{Outcome, ok, panic}
use niceperf.Common.Os.{IpAddr}
use niceperf.Throughput.Bandwidth.{Bandwidth}
use niceperf.Throughput.Direction.{TestDirection}

pub record CommonOpts : Type 0 where
  pub len : Option ℕ
  pub bandwidth : Option Bandwidth
  pub iface : Option String
  pub duration : Option ℕ
  pub file : Option String
  pub log : Option Bool
  pub dst_addr : IpAddr
  pub src_addr : Option IpAddr
  pub direction : TestDirection

pub record TcpOpts : Type 0 where
  pub common_opts : CommonOpts
  pub dst_port : ℕ
  pub src_port : Option ℕ
  pub cc : Option String
  pub mss : Option ℕ

pub record UdpOpts : Type 0 where
  pub common_opts : CommonOpts
  pub dst_port : ℕ
  pub src_port : Option ℕ

pub data Protocol : Type 0 where
  tcp : TcpOpts → Protocol
  udp : UdpOpts → Protocol

pub data Modes : Type 0 where
  server client : Protocol → Modes

pub record Opts : Type 0 where
  pub mode : Modes
  pub dont_fragment : Option Bool

-- `main`: a server is `todo!()`.
unfoldable pub main : {E : Type 0} → Opts → Outcome E (Unit {0})
main opts = elim (opts.mode) [ server proto ↦ panic | client proto ↦ ok tt ]
