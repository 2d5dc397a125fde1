-- ===== src/Common/Sockets.antt =====
-- The strongly typed sockets of common/src/lib.rs. Each constructor makes one socket, and the calls of
-- its trace are about that one.
pub mod Setup
pub mod Configured
pub mod Raw
mod Runs
use Prim.Native.String.{String}
use niceperf.Prelude.{ℕ, Bool, true, false, Option, none, some, Bytes, ◌==◌, if◌then◌else◌}
use niceperf.Common.Os.{
  IpAddr, v4, v6, Domain, ipv4, ipv6, SockType, raw, dgram, stream, Protocol, icmpv4, icmpv6, udp,
  tcp, Call, socket, set_nonblocking, bind_device, bind, connect, listen, set_mss, set_nodelay,
  set_quickack, set_congestion, Error, device_missing, device_unexpected, congestion, wrong_type,
  Os, pure, raise, perform, sys, enodev, ◌>>=◌, ◌>>◌,
}

-- `socket2::Socket`, by what it was opened as.
pub record Socket : Type 0 where
  pub domain : Domain
  pub kind : SockType
  pub protocol : Option Protocol

-- `Socket::new(…)?`
abbrev new_socket : Domain → SockType → Option Protocol → Os Socket
new_socket d k p = do sys (socket d k p); pure (record { domain = d; kind = k; protocol = p })

-- `bind_to_device`: a refusal is told apart by its error number.
unfoldable pub bind_to_device : Socket → String → Os Socket
bind_to_device s device = do
  perform (λ e. if e == enodev then device_missing device e else device_unexpected e)
      (bind_device device)
  pure s

-- `match bind_interface { Some(bi) => bind_to_device(socket, bi)?, None => socket }`
abbrev on_interface : Socket → Option String → Os Socket
on_interface s none = pure s
on_interface s (some device) = bind_to_device s device

-- One arm of the `match bind_address`.
abbrev open_on : Domain → SockType → Protocol → Option String → Os Socket
open_on d k p interface = do
  s ← new_socket d k (some p)
  sys (set_nonblocking true)
  on_interface s interface

-- `match bind_address { Some((addr, port)) => bind, None => {} }`: port 0 asks for an ephemeral one.
abbrev bind_local : Option (IpAddr × ℕ) → Os (Unit {0})
bind_local none = pure tt
bind_local (some (addr, port)) = sys (bind addr port)

unfoldable pub icmp_new : Option String → Option IpAddr → Os Socket
unfolding bind_to_device
icmp_new interface (some (v4 a)) = open_on ipv4 raw icmpv4 interface
icmp_new interface (some (v6 a)) = open_on ipv6 raw icmpv6 interface
icmp_new interface none = open_on ipv4 raw icmpv4 interface

abbrev udp_open : Option String → Option (IpAddr × ℕ) → Os Socket
udp_open interface (some (v4 a, port)) = open_on ipv4 dgram udp interface
udp_open interface (some (v6 a, port)) = open_on ipv6 dgram udp interface
udp_open interface none = open_on ipv4 dgram udp interface

unfoldable pub udp_new : Option String → Option (IpAddr × ℕ) → Os Socket
unfolding bind_to_device
udp_new interface address = do s ← udp_open interface address; bind_local address; pure s

abbrev tcp_open : Option String → Option (IpAddr × ℕ) → Os Socket
tcp_open interface (some (v4 a, port)) = open_on ipv4 stream tcp interface
tcp_open interface (some (v6 a, port)) = open_on ipv6 stream tcp interface
tcp_open interface none = open_on ipv4 stream tcp interface

abbrev with_mss : Option ℕ → Os (Unit {0})
with_mss none = pure tt
with_mss (some mss) = sys (set_mss mss)

abbrev with_congestion : Option String → Os (Unit {0})
with_congestion none = pure tt
with_congestion (some cc) = perform congestion (set_congestion cc)

unfoldable pub tcp_new : Option String → Option (IpAddr × ℕ) → Option ℕ → Option String → Os Socket
unfolding bind_to_device
tcp_new interface address maximum_segment_size congestion_control = do
  s ← tcp_open interface address
  bind_local address
  with_mss maximum_segment_size
  sys (set_nodelay true)
  sys (set_quickack true)
  with_congestion congestion_control
  pure s

-- `new_tcp_socket`, whose two arms open the same domain.
abbrev raw_tcp_open : IpAddr → Os Socket
raw_tcp_open (v4 a) = do s ← new_socket ipv4 stream none; sys (set_nonblocking true); pure s
raw_tcp_open (v6 a) = do s ← new_socket ipv4 stream none; sys (set_nonblocking true); pure s

abbrev bind_port_or_any : IpAddr → Option ℕ → Os (Unit {0})
bind_port_or_any addr none = sys (bind addr 0)
bind_port_or_any addr (some port) = sys (bind addr port)

unfoldable pub new_tcp_socket : Option String → IpAddr → Option ℕ → Os Socket
unfolding bind_to_device
new_tcp_socket interface addr port = do
  s ← raw_tcp_open addr
  s' ← on_interface s interface
  bind_port_or_any addr port
  pure s'

unfoldable pub icmp_connect : IpAddr → Os (Unit {0})
icmp_connect addr = sys (connect addr 0)

unfoldable pub udp_connect : IpAddr → ℕ → Os (Unit {0})
udp_connect addr port = sys (connect addr port)

-- The socket blocks while it connects.
unfoldable pub tcp_connect : IpAddr → ℕ → Os (Unit {0})
tcp_connect addr port = do
  sys (set_nonblocking false)
  sys (connect addr port)
  sys (set_nonblocking true)

unfoldable pub tcp_listen : ℕ → Os (Unit {0})
tcp_listen backlog = sys (listen backlog)
