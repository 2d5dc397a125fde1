-- ===== src/Latency/Runner/State.antt =====
-- The state of `TestRunner` (latency/src/test_runner.rs), its methods as a monad, and what the surroundings
-- give them.
use niceperf.Prelude.{ℕ, Bool, Option, none, List, [], Bytes, take}
use niceperf.Prelude.Outcome.{Outcome, ok, err, panic}
use niceperf.Common.Os.{Answer}
use niceperf.Latency.Args.{Config}
use niceperf.Latency.Conn.{UdpLatency, SocketKind, ConnCtx, ctx_new, ctx_send, ctx_stop}
use niceperf.Latency.Conn as Conn

pub data Side : Type 0 where
  client server : Side

pub data Error : Type 0 where
  unexpected_handshake server_error client_error handshake_timeout unexpected_message : Error

-- `TestRunner`, with what it has done: the socket of the task that it has spawned, what it has written to
-- the control stream and handed to the task, and what the task has given it.
pub record TestRunner : Type 0 where
  pub side : Side
  pub id : Option ℕ
  pub test_cfg : Option Config
  pub ctx : Option ConnCtx
  pub conn : Option UdpLatency
  pub written : List Bytes
  pub queued : List Bytes
  pub received : List Bytes

-- `TestRunner::new`
unfoldable pub new : Side → Option Config → Option ℕ → TestRunner
new side test_cfg id = record {
  side = side;
  id = id;
  test_cfg = test_cfg;
  ctx = none;
  conn = none;
  written = [];
  queued = [];
  received = [];
}

-- A method of `TestRunner`.
abbrev pub Act : Type 0 → Type 0
Act A = TestRunner → Outcome Error A × TestRunner

module _ {A : Type 0} where
  abbrev pub pure : A → Act A
  pure a s = (ok a, s)

  abbrev pub lift : Outcome Error A → Act A
  lift r s = (r, s)

  abbrev pub raise : Error → Act A
  raise e s = (err e, s)

module _ {A B : Type 0} where
  abbrev pub continue : Outcome Error A → (A → Act B) → Act B
  continue (ok a) f s = f a s
  continue (err e) f s = (err e, s)
  continue panic f s = (panic, s)

  infixl 5 ◌>>=◌
  abbrev pub ◌>>=◌ : Act A → (A → Act B) → Act B
  ◌>>=◌ m f s = continue (m s).0 f (m s).1

module _ {B : Type 0} where
  infixl 5 ◌>>◌
  abbrev pub ◌>>◌ : Act (Unit {0}) → Act B → Act B
  m >> k = m >>= λ _. k

abbrev pub get : Act TestRunner
get s = (ok s, s)

abbrev pub put : TestRunner → Act (Unit {0})
put s' s = (ok tt, s')

-- What a read of the control stream gives.
pub data Read : Type 0 where
  failed finished : Read
  chunk : Bytes → Read

-- The control stream is read into a buffer of 1024 bytes: what is longer is cut.
abbrev pub cut : Bytes → Bytes
cut = take 1024

-- `.await.unwrap().unwrap()`
abbrev pub received_chunk : Read → Outcome Error Bytes
received_chunk (chunk bytes) = ok (cut bytes)
received_chunk failed = panic
received_chunk finished = panic

-- What the surroundings answer to the opening: whether the write and the socket succeed, and what is read.
pub record Opening : Type 0 where
  pub wrote : Bool
  pub read : Read
  pub system : Answer

-- What wakes the handshake: the timer, by whether the task still listens; the ten seconds; bytes on the
-- control stream; or a packet of the test, by whether the answer can be written. A side that does not
-- wait for an event passes it over.
pub data Wake : Type 0 where
  tick : Bool → Wake
  timeout : Wake
  control : Bytes → Wake
  packet : Bytes → Bool → Wake

-- How the setup stands.
pub data Progress : Type 0 where
  waiting : Progress
  ended : Outcome Error (Unit {0}) → Progress

abbrev pub of_conn : {A : Type 0} → Outcome Conn.Error A → Outcome Error A
of_conn (ok a) = ok a
of_conn (err e) = panic
of_conn panic = panic

abbrev pub kind_of : Side → SocketKind
kind_of client = SocketKind.client
kind_of server = SocketKind.server
