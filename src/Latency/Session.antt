-- ===== src/Latency/Session.antt =====
-- A whole test (latency/src): the runner of the client, the tasks of the two connections with the network
-- between them, and the runner of the server.
pub mod Tasks
pub mod Sides
pub mod Whole
use niceperf.Prelude.{ℕ, List, [], ◌∷◌, Bytes, map, replicate}
use niceperf.Prelude.Outcome.{ok, err, panic}
use niceperf.Prelude.Network.{Route, deliver}
use niceperf.Latency.Protocol.{Codec}
use niceperf.Latency.Conn.{Peer, UdpLatency, ConnRunner, Running, runner_new}
use niceperf.Latency.Conn as Conn
use niceperf.Latency.Conn.Serving.{Exchange, says, hears, event}
use niceperf.Latency.Runner.{Opening, Wake, Progress, waiting, ended, TestRunner, setup}
use niceperf.Latency.Test as Test

-- `setup().await.unwrap()`
abbrev pub after_setup :
    Progress × TestRunner → (TestRunner → Progress × TestRunner) → Progress × TestRunner
after_setup (waiting, s) next = (waiting, s)
after_setup (ended (ok u), s) next = next s
after_setup (ended (err e), s) next = (ended panic, s)
after_setup (ended panic, s) next = (ended panic, s)

module _ (b : Codec) where
  -- The task that a client or a server spawns: the setup, and then the test.
  unfoldable pub life : Opening → List Wake → List Test.Event → TestRunner → Progress × TestRunner
  life o wakes events s = after_setup (setup b o wakes s) (Test.run b events)

-- What the connection's task is woken by while a test runs: its ticks and packets, each of `n` bytes.
abbrev pub exchanges : ℕ → List Test.Event → List Exchange
exchanges n [] = []
exchanges n (Test.tick listening ∷ es) = says (replicate n 0) ∷ exchanges n es
exchanges n (Test.packet bytes ∷ es) = hears bytes ∷ exchanges n es
exchanges n (Test.control bytes ∷ es) = exchanges n es
exchanges n (Test.stop running ∷ es) = exchanges n es

-- The task of a connection, of which only the peer's packets come to it.
unfoldable pub task : UdpLatency → Peer → List Exchange → ConnRunner × Running
task socket peer xs = Conn.run (runner_new socket) (map (event peer) xs)

-- The packets that a task has sent.
abbrev pub messages : ConnRunner → List Bytes
messages r = map (λ (s : Peer × Bytes). s.1) r.sent

-- What comes of them over a network that loses, repeats and reorders packets.
abbrev pub come_over : Route → List Bytes → List Bytes
come_over route sent = map (λ (a : Bytes × ℕ). a.0) (deliver sent route)
