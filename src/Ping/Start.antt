-- ===== src/Ping/Start.antt =====
-- How `ping` starts: `new` of the clients and servers (ping/src/icmp.rs, udp.rs and tcp.rs), which make
-- and connect the socket and the log file.
pub mod Configured
mod Runs
use Prim.Native.String.{String}
use niceperf.Prelude.{ℕ, Bool, true, false, Option, none, some, List}
use niceperf.Prelude.Outcome.{Outcome, ok, err, panic, unwrap}
use niceperf.Prelude.Outcome as Outcome
use niceperf.Common.Os.{
  IpAddr, Error, io, Os, pure, raise, sys, listen, set_reuse_address, ◌>>=◌, ◌>>◌,
}
use niceperf.Common.Interfaces.{Interface, interface_to_ipaddr}
use niceperf.Common.Sockets.{
  Socket, icmp_new, udp_new, tcp_new, icmp_connect, udp_connect, tcp_connect, tcp_listen,
}
use niceperf.Ping.Args.{CommonOpts, TcpOpts, UdpOpts, IcmpOpts}
use niceperf.Ping.Icmp.{IcmpClient}
use niceperf.Ping.Udp.{UdpClient}
use niceperf.Ping.Tcp.{TcpClient}

-- What is read of the machine: its interfaces, the error with which `Logger::new` fails on a file, if
-- any, and the random identifier.
pub record Machine : Type 0 where
  pub interfaces : List Interface
  pub create_log : String → Option ℕ
  pub identifier : ℕ

-- The given source address, or the first of the interface; `iface.as_ref().unwrap()` panics.
unfoldable pub source_addr : List Interface → CommonOpts → Outcome Error IpAddr
source_addr interfaces o = elim (o.src_addr) [
  | some addr ↦ ok addr
  | none ↦ Outcome.◌>>=◌ (unwrap o.iface) (λ iface. interface_to_ipaddr iface interfaces)
]

-- `match src_port { Some(port) => port, None => 0 }`
abbrev pub port_or_zero : Option ℕ → ℕ
port_or_zero none = 0
port_or_zero (some port) = port

abbrev pub lift {ℓ} : {A : Type ℓ} → Outcome Error A → Os A
lift r answer t = (r, t)

-- `match file { Some(file_name) => Some(Logger::new(file_name)?), None => None }`
abbrev pub open_log : Machine → Option String → Outcome Error Bool
open_log m none = ok false
open_log m (some file_name) = elim (m.create_log file_name) [ none ↦ ok true | some e ↦ err (io e) ]

-- `ICMPClient::new`
unfoldable pub icmp_client_new : Machine → IcmpOpts → Os IcmpClient
icmp_client_new m o = do
  src_addr ← lift (source_addr m.interfaces o.common_opts)
  socket ← icmp_new o.common_opts.iface (some src_addr)
  icmp_connect o.common_opts.dst_addr
  has_logger ← lift (open_log m o.common_opts.file)
  pure (record {
    common = o.common_opts;
    src_addr = src_addr;
    dst_addr = o.common_opts.dst_addr;
    identifier = m.identifier;
    has_logger = has_logger;
  })

-- `UDPClient::new`
unfoldable pub udp_client_new : Machine → UdpOpts → Os UdpClient
udp_client_new m o = do
  src_addr ← lift (source_addr m.interfaces o.common_opts)
  socket ← udp_new o.common_opts.iface (some (src_addr, port_or_zero o.src_port))
  udp_connect o.common_opts.dst_addr o.dst_port
  has_logger ← lift (open_log m o.common_opts.file)
  pure (record {
    common = o.common_opts;
    src_addr = src_addr;
    dst_addr = o.common_opts.dst_addr;
    identifier = m.identifier;
    has_logger = has_logger;
  })

-- `TCPClient::new`
unfoldable pub tcp_client_new : Machine → TcpOpts → Os TcpClient
tcp_client_new m o = do
  src_addr ← lift (source_addr m.interfaces o.common_opts)
  socket ← tcp_new o.common_opts.iface (some (src_addr, port_or_zero o.src_port)) o.mss o.cc
  tcp_connect o.common_opts.dst_addr o.dst_port
  has_logger ← lift (open_log m o.common_opts.file)
  cc ← lift (unwrap o.cc)
  pure (record {
    common = o.common_opts;
    src_addr = src_addr;
    dst_addr = o.common_opts.dst_addr;
    identifier = m.identifier;
    has_logger = has_logger;
    cc = cc;
  })

-- `UDPServer::new` and `TCPServer::new`, which listen on the destination address of the options.
unfoldable pub udp_server_new : UdpOpts → Os Socket
udp_server_new o = do
  socket ← udp_new none (some (o.common_opts.dst_addr, o.dst_port))
  sys (set_reuse_address true)
  pure socket

unfoldable pub tcp_server_new : TcpOpts → Os Socket
tcp_server_new o = do
  socket ← tcp_new none (some (o.common_opts.dst_addr, o.dst_port)) o.mss o.cc
  tcp_listen 128
  pure socket
