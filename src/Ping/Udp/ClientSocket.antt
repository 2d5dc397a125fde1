-- ===== src/Ping/Udp/ClientSocket.antt =====
-- The socket that `UDPServer::run` makes for a client (ping/src/udp.rs).
use niceperf.Prelude.{ℕ, ◌≡◌, true, none, some, List, [], ◌∷◌, ◌++◌, arith}
use niceperf.Common.Os.{
  IpAddr, Os, Answer, Trace, Call, set_reuse_address, bind, connect, ipv4, dgram, udp, sys, pure,
  run_plan, ◌>>=◌, ◌>>◌,
}
use niceperf.Common.Sockets.{Socket, udp_new}
use niceperf.Common.Sockets.Setup.{udp_new-plan, udp_plan, planned}

-- An address with its port.
abbrev pub Peer : Type 0
Peer = IpAddr × ℕ

-- Bound to the server's own address and connected to the peer.
unfoldable pub client_socket : Peer → Peer → Os Socket
client_socket (local, local_port) (peer, peer_port) = do
  s ← udp_new none none
  sys (set_reuse_address true)
  sys (bind local local_port)
  sys (connect peer peer_port)
  pure s

abbrev pub client_plan : Peer → Peer → List Call
client_plan local peer =
    udp_plan none none ++ set_reuse_address true ∷ bind local.0 local.1 ∷ connect peer.0 peer.1 ∷ []

-- The client's socket is made with exactly these calls, in order, up to the first that is refused: an
-- IPv4 socket whatever the family of the peer, and the address is shared before it is bound.
pub client_socket-plan :
    (local peer : Peer) (answer : Answer) (t : Trace)
    → client_socket local peer answer t
      ≡ planned
          (client_plan local peer)
          (record { domain = ipv4; kind = dgram; protocol = some udp })
          answer
          t
unfolding client_socket run_plan
client_socket-plan (a, p) (c, q) answer t = rw udp_new-plan (ground arith)
