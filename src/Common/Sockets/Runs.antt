-- ===== src/Common/Sockets/Runs.antt =====
-- The socket theorems at concrete inputs: a system that accepts every call, one that refuses to connect,
-- and one that refuses to set a congestion control.
use niceperf.Prelude.{ℕ, ◌≡◌, refl, true, Option, none, some, []}
use niceperf.Prelude.Outcome.{err}
use niceperf.Common.Os.{
  Domain, SockType, Protocol, Call, bind, Error, v6, ipv4, ipv6, dgram, stream, tcp, udp, connect,
  set_congestion, Answer,
}
use niceperf.Common.Os.Plan.{EndsAt}
use niceperf.Common.Sockets.{Socket, bind_to_device, tcp_new, new_tcp_socket}
use niceperf.Common.Sockets.Setup.{tcp_plan}
use niceperf.Common.Sockets.Configured.{
  blank, configured, tcp_new-configured, tcp_new-Ends, new_tcp_socket-v6, ChecksFamily,
  eafnosupport,
}

abbrev accepting : Answer
accepting t c = none

-- `EINPROGRESS` for every connection.
abbrev refusing : Answer
refusing t (connect a p) = some 115
refusing t _ = none

-- `ENOENT` for every congestion control.
abbrev reno_only : Answer
reno_only t (set_congestion c) = some 2
reno_only t _ = none

abbrev udp_socket : Socket
udp_socket = record { domain = ipv4; kind = dgram; protocol = some udp }

abbrev tcp_socket : Socket
tcp_socket = record { domain = ipv6; kind = stream; protocol = some tcp }

tcp_new-configured_example :
    configured (tcp_plan none (some (v6 7, 80)) none (some "bbr")) ≡ record blank {
      opened = some (ipv6, stream, some tcp);
      nonblocking = true;
      local = some (v6 7, 80);
      nodelay = true;
      quickack = true;
      congestion = some "bbr";
    }
unfolding tcp_new bind_to_device
tcp_new-configured_example =
    tcp_new-configured none (some (v6 7, 80)) none (some "bbr") accepting tcp_socket
      (tcp_plan none (some (v6 7, 80)) none (some "bbr")) refl

tcp_new-Ends_example :
    EndsAt tcp_socket reno_only []
      (tcp_plan none (some (v6 7, 80)) none (some "bbr"))
      (tcp_new none (some (v6 7, 80)) none (some "bbr") reno_only [])
tcp_new-Ends_example = tcp_new-Ends none (some (v6 7, 80)) none (some "bbr") reno_only []

-- A system that refuses to bind an IPv4 socket to an IPv6 address, and accepts every other call.
abbrev refuse_v6 : Option (Domain × SockType × Option Protocol) → Call → Option ℕ
refuse_v6 (some (ipv4, k, p)) (bind (v6 a) port) = some eafnosupport
refuse_v6 _ _ = none

abbrev checking : Answer
checking t c = refuse_v6 (configured t).opened c

checking-ChecksFamily : ChecksFamily checking
checking-ChecksFamily t a port k p opened = rw opened

new_tcp_socket-v6_example :
    (e : Error) × ((new_tcp_socket none (v6 7) (some 80) checking []).0 ≡ err e)
new_tcp_socket-v6_example = new_tcp_socket-v6 none 7 (some 80) checking checking-ChecksFamily
