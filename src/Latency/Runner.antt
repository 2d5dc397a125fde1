-- ===== src/Latency/Runner.antt =====
-- `TestRunner` (latency/src/test_runner.rs): the setup of a test on either side, and the test itself. The
-- tasks and channels of tokio, the streams of quinn, the clock and `bincode` are inputs: what a wait gives
-- is an event, and what a call answers an argument.
mod State
pub mod Rounds
pub mod Link
pub mod Stages
pub mod Negotiation
pub mod Ready
pub mod Setup
pub mod Silence
use niceperf.Prelude.{
  ℕ, ◌+◌, ◌^◌, Bool, true, false, Option, none, some, List, [], ◌∷◌, ◌++◌, Bytes, ◌==◌, ltb, leb,
  replicate,
}
use niceperf.Prelude.Outcome.{Outcome, ok, err, panic, unwrap, require}
use niceperf.Common.Os.{Answer}
use niceperf.Latency.Args.{Config, ProtocolType, tcp, udp, quic}
use niceperf.Latency.Protocol.{MessageType, new_test, handshake, error, Codec}
use niceperf.Latency.Conn.{UdpLatency, SocketKind, ConnCtx, ctx_new, ctx_send, ctx_stop}
use niceperf.Latency.Conn as Conn
unfoldable pub use State.*

-- The `match proto` of both sides: the socket, its task and the handle on it.
unfoldable pub open_conn : Side → ProtocolType → Answer → Act (Unit {0})
open_conn side (tcp o) system = lift panic
open_conn side (quic o) system = lift panic
open_conn side (udp o) system = do
  socket ← lift (of_conn (Conn.new (kind_of side) (o.dst_addr, o.dst_port) system))
  s ← get
  put (record s { conn = some socket; ctx = some ctx_new })

-- The `match msg` of the client.
unfoldable pub client_answer : MessageType → Answer → Act (Unit {0})
client_answer (new_test id cfg) system = open_conn client cfg.proto system
client_answer (handshake id) system = raise unexpected_handshake
client_answer (error e) system = raise server_error

-- What the client makes of a message: whether the loop is left.
unfoldable pub client_hears : MessageType → Act Bool
client_hears (handshake id) = do s ← get; own ← lift (unwrap s.id); pure (id == own)
client_hears (new_test id cfg) = raise unexpected_message
client_hears (error e) = raise unexpected_message

-- The two assertions, after which the test is ready.
unfoldable pub finish : Act (Unit {0})
finish = do s ← get; cfg ← lift (unwrap s.test_cfg); ctx ← lift (unwrap s.ctx); pure tt

abbrev pub after_finish : Outcome Error (Unit {0}) × TestRunner → Progress × TestRunner
after_finish (r, s) = (ended r, s)

abbrev pub after_wake :
    Outcome Error Bool × TestRunner → (TestRunner → Progress × TestRunner) → Progress × TestRunner
after_wake (ok true, s) next = after_finish (finish s)
after_wake (ok false, s) next = next s
after_wake (err e, s) next = (ended (err e), s)
after_wake (panic, s) next = (ended panic, s)

abbrev pub after_opening :
    Outcome Error (Unit {0}) × TestRunner
    → (TestRunner → Progress × TestRunner)
    → Progress × TestRunner
after_opening (ok u, s) next = next s
after_opening (err e, s) next = (ended (err e), s)
after_opening (panic, s) next = (ended panic, s)

-- `self.ctx.as_ref().unwrap().send(…).unwrap()`
unfoldable pub queue : Bytes → Bool → Act (Unit {0})
queue msg listening = do
  s ← get
  ctx ← lift (unwrap s.ctx)
  lift (of_conn (ctx_send listening))
  s ← get
  put (record s { queued = s.queued ++ msg ∷ [] })

module _ (b : Codec) where
  -- `serialize(…).unwrap()`, `write_all(…).unwrap()`
  unfoldable pub write : MessageType → Bool → Act (Unit {0})
  write msg wrote = do
    enc_msg ← lift (unwrap (b.serialize msg))
    lift (require wrote)
    s ← get
    put (record s { written = s.written ++ enc_msg ∷ [] })

  -- The `match msg` of the server.
  unfoldable pub server_answer : MessageType → Opening → Act (Unit {0})
  server_answer (new_test id cfg) o = do
    s ← get
    put (record s { test_cfg = some cfg })
    write (new_test id cfg) o.wrote
    open_conn server cfg.proto o.system
  server_answer (handshake id) o = lift panic
  server_answer (error e) o = raise client_error

  -- The first half of `setup`.
  unfoldable pub negotiate : Side → Opening → Act (Unit {0})
  negotiate client o = do
    s ← get
    id ← lift (unwrap s.id)
    cfg ← lift (unwrap s.test_cfg)
    write (new_test id cfg) o.wrote
    bytes ← lift (received_chunk o.read)
    msg ← lift (unwrap (b.deserialize bytes))
    client_answer msg o.system
  negotiate server o = do
    bytes ← lift (received_chunk o.read)
    msg ← lift (unwrap (b.deserialize bytes))
    server_answer msg o

  -- What the server makes of a packet.
  unfoldable pub server_hears : MessageType → Bool → Act Bool
  server_hears (handshake id) wrote = do write (handshake id) wrote; pure true
  server_hears (new_test id cfg) wrote = raise unexpected_message
  server_hears (error e) wrote = raise unexpected_message

  -- One round of the handshake loop.
  unfoldable pub round : Side → Wake → Act Bool
  round client (tick listening) = do
    s ← get
    id ← lift (unwrap s.id)
    msg ← lift (unwrap (b.serialize (handshake id)))
    queue msg listening
    pure false
  round client (control bytes) = do
    msg ← lift (unwrap (b.deserialize (cut bytes)))
    client_hears msg
  round client (packet bytes wrote) = pure false
  round server (packet bytes wrote) = do
    msg ← lift (unwrap (b.deserialize bytes))
    server_hears msg wrote
  round server (tick listening) = pure false
  round server (control bytes) = pure false
  round side timeout = raise handshake_timeout

  -- The second half of `setup`, over what wakes it.
  unfoldable pub shake : Side → List Wake → TestRunner → Progress × TestRunner
  shake side [] s = (waiting, s)
  shake side (w ∷ ws) s = after_wake (round side w s) (λ s'. shake side ws s')

  -- `setup`
  unfoldable pub setup : Opening → List Wake → TestRunner → Progress × TestRunner
  setup o ws s = after_opening (negotiate s.side o s) (λ s'. shake s.side ws s')
