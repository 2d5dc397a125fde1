-- ===== src/Latency/Conn.antt =====
-- The data connection of a test (latency/src/conn_types.rs): the UDP socket that knows one peer, the task
-- that serves it (`ConnRunner`), and the handle on that task (`ConnCtx`).
pub mod Peers
pub mod Serving
pub mod Relay
use niceperf.Prelude.{
  ℕ, ◌≡◌, Bool, true, false, ◌&&◌, Option, none, some, List, [], ◌∷◌, ◌++◌, Bytes, ◌==◌, length,
  if◌then◌else◌,
}
use niceperf.Prelude.Outcome.{Outcome, ok, err, panic, unwrap, require, ◌>>=◌, ◌>>◌}
use niceperf.Common.Os.{IpAddr, v4, v6, Answer}
use niceperf.Common.Os
use niceperf.Common.Sockets.{Socket, udp_new}
use niceperf.Ping.Task.{Sys, refused, gave}

-- `SocketAddr` and its equality.
abbrev pub Peer : Type 0
Peer = IpAddr × ℕ

abbrev pub same_ip : IpAddr → IpAddr → Bool
same_ip (v4 a) (v4 b) = a == b
same_ip (v6 a) (v6 b) = a == b
same_ip (v4 a) (v6 b) = false
same_ip (v6 a) (v4 b) = false

abbrev pub same_peer : Peer → Peer → Bool
same_peer (a, p) (b, q) = same_ip a b && (p == q)

pub data Error : Type 0 where
  wrong_addr : Error
  io : ℕ → Error
  recv_error : Error
  send_error : Error

-- `socket_kind`
pub data SocketKind : Type 0 where
  server client : SocketKind

-- `UdpLatency<Kind>`: what the socket is bound to, and the peer.
pub record UdpLatency : Type 0 where
  pub kind : SocketKind
  pub local : Option Peer
  pub peer : Option Peer

-- `UDPSocket::new(…).unwrap()`, by what the system answers.
abbrev pub made : Outcome Os.Error Socket → Outcome Error (Unit {0})
made (ok s) = ok tt
made (err e) = panic
made panic = panic

-- The two `new`. A client's socket is not bound.
unfoldable pub new : SocketKind → Peer → Answer → Outcome Error UdpLatency
new server local system = do
  made (udp_new none (some local) system []).0
  ok (record { kind = server; local = some local; peer = none })
new client remote system = do
  made (udp_new none none system []).0
  ok (record { kind = client; local = none; peer = some remote })

abbrev pub answered : Sys → Outcome Error ℕ
answered (refused e) = err (io e)
answered (gave n) = ok n

-- `send`: to whom the bytes go.
unfoldable pub send : UdpLatency → Sys → Outcome Error Peer
send socket sent = do peer ← unwrap socket.peer; written ← answered sent; ok peer

-- `recv`, of a packet that came from an address: the socket after it.
unfoldable pub recv : UdpLatency → Peer → Outcome Error UdpLatency
recv socket recv_addr = elim (socket.peer) [
  | some peer ↦ if same_peer recv_addr peer then ok socket else err wrong_addr
  | none ↦ ok (record socket { peer = some recv_addr })
]

-- What wakes `ConnRunner::run`: bytes to send with the answer of `send_to`; a packet from an address, and
-- whether the test still listens; an error of the socket; or the stop.
pub data Event : Type 0 where
  outgoing : Bytes → Sys → Event
  incoming : Peer → Bytes → Bool → Event
  socket_error : ℕ → Event
  stop : Event

-- The task: its socket, what it has sent and to whom, and what it has handed on.
pub record ConnRunner : Type 0 where
  pub socket : UdpLatency
  pub sent : List (Peer × Bytes)
  pub delivered : List Bytes

-- `ConnRunner::new`
unfoldable pub runner_new : UdpLatency → ConnRunner
runner_new socket = record { socket = socket; sent = []; delivered = [] }

-- `.unwrap()` of a result.
abbrev pub unwrap_result {ℓ} : {A : Type ℓ} → Outcome Error A → Outcome Error A
unwrap_result (ok a) = ok a
unwrap_result (err e) = panic
unwrap_result panic = panic

-- How the task stands: it waits, it has ended, or a panic has ended it.
pub data Running : Type 0 where
  waiting stopped panicked : Running

-- One round with bytes or a packet.
unfoldable pub on_outgoing : ConnRunner → Bytes → Sys → Outcome Error ConnRunner
unfolding send
on_outgoing r msg sent = do
  peer ← unwrap_result (send r.socket sent)
  ok (record r { sent = r.sent ++ (peer, msg) ∷ [] })

unfoldable pub on_incoming : ConnRunner → Peer → Bytes → Bool → Outcome Error ConnRunner
unfolding recv
on_incoming r from packet listening = do
  socket ← unwrap_result (recv r.socket from)
  require listening
  ok (record r { socket = socket; delivered = r.delivered ++ packet ∷ [] })

abbrev pub after_round :
    Outcome Error ConnRunner
    → ConnRunner
    → (ConnRunner → ConnRunner × Running)
    → ConnRunner × Running
after_round (ok r') r next = next r'
after_round (err e) r next = (r, panicked)
after_round panic r next = (r, panicked)

-- `ConnRunner::run`, over what wakes it.
unfoldable pub run : ConnRunner → List Event → ConnRunner × Running
run r [] = (r, waiting)
run r (outgoing msg sent ∷ events) = after_round (on_outgoing r msg sent) r (λ r'. run r' events)
run r (incoming from packet listening ∷ events) =
    after_round (on_incoming r from packet listening) r (λ r'. run r' events)
run r (socket_error e ∷ events) = (r, panicked)
run r (stop ∷ events) = (r, stopped)

-- `ConnCtx`: whether its stop has been taken.
pub record ConnCtx : Type 0 where
  pub stop : Bool

unfoldable pub ctx_new : ConnCtx
ctx_new = record { stop = true }

-- `ConnCtx::send` and `ConnCtx::recv`, by whether the task's ends of the channels are open.
unfoldable pub ctx_send : Bool → Outcome Error (Unit {0})
ctx_send true = ok tt
ctx_send false = err send_error

unfoldable pub ctx_recv : Option Bytes → Outcome Error Bytes
ctx_recv (some buf) = ok buf
ctx_recv none = err recv_error

-- `ConnCtx::stop`, by whether the task still runs: a second stop does nothing.
unfoldable pub ctx_stop : ConnCtx → Bool → Outcome Error ConnCtx
ctx_stop ctx running =
    if ctx.stop then (do require running; ok (record { stop = false })) else ok ctx
