-- ===== src/Common/Sockets/Setup.antt =====
-- The constructors against the plan of calls that each stands for.
use Prim.Native.String.{String}
use niceperf.Prelude.{ℕ, ◌≡◌, true, Option, none, some, List, [], ◌∷◌, ◌++◌, arith}
use niceperf.Common.Os.{
  IpAddr, v4, v6, Domain, ipv4, ipv6, SockType, raw, dgram, stream, Protocol, icmpv4, icmpv6, udp,
  tcp, Call, socket, set_nonblocking, bind_device, bind, set_mss, set_nodelay, set_quickack,
  set_congestion, Os, Answer, Trace, pure, run_plan, ◌>>◌,
}
use niceperf.Common.Sockets.{Socket, icmp_new, udp_new, tcp_new, new_tcp_socket}

abbrev pub optional {ℓ} : {A : Type ℓ} → (A → Call) → Option A → List Call
optional f none = []
optional f (some a) = f a ∷ []

abbrev pub family : Option (IpAddr × ℕ) → Domain
family none = ipv4
family (some (v4 a, port)) = ipv4
family (some (v6 a, port)) = ipv6

abbrev pub open_plan : Domain → SockType → Option Protocol → Option String → List Call
open_plan d k p interface = socket d k p ∷ set_nonblocking true ∷ optional bind_device interface

abbrev pub udp_plan : Option String → Option (IpAddr × ℕ) → List Call
udp_plan interface address =
    open_plan (family address) dgram (some udp) interface ++ optional (λ a. bind a.0 a.1) address

abbrev pub tcp_plan : Option String → Option (IpAddr × ℕ) → Option ℕ → Option String → List Call
tcp_plan interface address mss congestion =
    open_plan (family address) stream (some tcp) interface
    ++ optional (λ a. bind a.0 a.1) address
    ++ optional set_mss mss
    ++ set_nodelay true ∷ set_quickack true ∷ optional set_congestion congestion

abbrev pub icmp_family : Option IpAddr → Domain × Protocol
icmp_family none = (ipv4, icmpv4)
icmp_family (some (v4 a)) = (ipv4, icmpv4)
icmp_family (some (v6 a)) = (ipv6, icmpv6)

abbrev pub icmp_plan : Option String → Option IpAddr → List Call
icmp_plan interface address =
    open_plan (icmp_family address).0 raw (some (icmp_family address).1) interface

-- Without a port an ephemeral one is asked for.
abbrev pub port_or_any : Option ℕ → ℕ
port_or_any none = 0
port_or_any (some port) = port

abbrev pub raw_tcp_plan : Option String → IpAddr → Option ℕ → List Call
raw_tcp_plan interface addr port =
    open_plan ipv4 stream none interface ++ bind addr (port_or_any port) ∷ []

-- The plan's calls in order up to the first refusal, then the socket.
abbrev pub planned : List Call → Socket → Os Socket
planned cs s = run_plan cs >> pure s

-- `UDPSocket::new` makes exactly the calls of its plan, in order, up to the first that is refused.
pub udp_new-plan :
    (interface : Option String) (address : Option (IpAddr × ℕ)) (answer : Answer) (t : Trace)
    → udp_new interface address answer t
      ≡ planned
          (udp_plan interface address)
          (record { domain = family address; kind = dgram; protocol = some udp })
          answer
          t
unfolding udp_new run_plan
udp_new-plan none none answer t = ground arith
udp_new-plan none (some (v4 a, port)) answer t = ground arith
udp_new-plan none (some (v6 a, port)) answer t = ground arith
udp_new-plan (some d) none answer t = ground arith
udp_new-plan (some d) (some (v4 a, port)) answer t = ground arith
udp_new-plan (some d) (some (v6 a, port)) answer t = ground arith

-- `ICMPSocket::new` makes exactly the calls of its plan, in order, up to the first that is refused.
pub icmp_new-plan :
    (interface : Option String) (address : Option IpAddr) (answer : Answer) (t : Trace)
    → icmp_new interface address answer t
      ≡ planned
          (icmp_plan interface address)
          (record {
            domain = (icmp_family address).0;
            kind = raw;
            protocol = some (icmp_family address).1;
          })
          answer
          t
unfolding icmp_new run_plan
icmp_new-plan none none answer t = ground arith
icmp_new-plan none (some (v4 a)) answer t = ground arith
icmp_new-plan none (some (v6 a)) answer t = ground arith
icmp_new-plan (some d) none answer t = ground arith
icmp_new-plan (some d) (some (v4 a)) answer t = ground arith
icmp_new-plan (some d) (some (v6 a)) answer t = ground arith

-- `new_tcp_socket` opens an IPv4 socket for an address of either family, and then binds that address.
pub new_tcp_socket-plan :
    (interface : Option String) (addr : IpAddr) (port : Option ℕ) (answer : Answer) (t : Trace)
    → new_tcp_socket interface addr port answer t
      ≡ planned
          (raw_tcp_plan interface addr port)
          (record { domain = ipv4; kind = stream; protocol = none })
          answer
          t
unfolding new_tcp_socket run_plan
new_tcp_socket-plan none (v4 a) none answer t = ground arith
new_tcp_socket-plan none (v6 a) none answer t = ground arith
new_tcp_socket-plan _ _ _ answer t = ground arith

-- `TCPSocket::new` makes exactly the calls of its plan, in order, up to the first that is refused.
pub tcp_new-plan :
    (interface : Option String) (address : Option (IpAddr × ℕ)) (mss : Option ℕ)
    (cc : Option String) (answer : Answer) (t : Trace)
    → tcp_new interface address mss cc answer t
      ≡ planned
          (tcp_plan interface address mss cc)
          (record { domain = family address; kind = stream; protocol = some tcp })
          answer
          t
unfolding tcp_new run_plan
tcp_new-plan none none none none answer t = ground arith
tcp_new-plan _ (some (v4 a, port)) _ _ answer t = ground arith
tcp_new-plan _ (some (v6 a, port)) _ _ answer t = ground arith
tcp_new-plan _ _ _ _ answer t = ground arith
