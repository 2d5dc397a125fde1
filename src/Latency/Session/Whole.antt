-- ===== src/Latency/Session/Whole.antt =====
-- A whole test: both runners, both tasks, and the network between the tasks.
use niceperf.Prelude.{ℕ, ◌≡◌, List, [], ◌∷◌, ◌++◌, Bytes, map, All, replicate, ◌⊎◌, some, true}
use niceperf.Prelude.Outcome.{ok}
use niceperf.Common.Os.{Answer}
use niceperf.Latency.Args.{CommonOpts, UdpOpts}
use niceperf.Latency.Protocol.{new_test, Codec, IsCodec}
use niceperf.Latency.Conn.{Peer, ConnRunner, Running}
use niceperf.Latency.Conn.Serving.{says, hears}
use niceperf.Latency.Runner.{
  Opening, Wake, Read, chunk, TestRunner, tick, control, packet, Progress, ended,
}
use niceperf.Latency.Runner.Negotiation.{udp_test, hears as opening, client_socket, server_socket}
use niceperf.Latency.Test as Test
use niceperf.Latency.Session.{exchanges, task}
use niceperf.Latency.Session.Tasks.{Done}

-- A packet of the test.
abbrev pub Zeros : ℕ → Bytes → Type 0
Zeros n m = m ≡ replicate n 0

-- What comes to a server: a handshake that has been sent again, or a packet of the test.
abbrev pub ShakeOrZeros : ℕ → Bytes → Bytes → Type 0
ShakeOrZeros n shake_code m = (m ≡ shake_code) ⊎ Zeros n m

-- An event of a test other than a stop, and without a message on the control stream; the connection's
-- task listens.
abbrev pub Quiet : Test.Event → Type 0
Quiet (Test.tick listening) = listening ≡ true
Quiet (Test.packet bytes) = Unit {0}
Quiet (Test.control bytes) = ⊥
Quiet (Test.stop running) = ⊥

-- What a runner reads on the control stream: in the opening, in the handshake and in the test.
abbrev pub chunks : Read → List Bytes
chunks (chunk bytes) = bytes ∷ []
chunks _ = []

abbrev pub heard_shaking : List Wake → List Bytes
heard_shaking [] = []
heard_shaking (control bytes ∷ wakes) = bytes ∷ heard_shaking wakes
heard_shaking (_ ∷ wakes) = heard_shaking wakes

abbrev pub heard_testing : List Test.Event → List Bytes
heard_testing [] = []
heard_testing (Test.control bytes ∷ es) = bytes ∷ heard_testing es
heard_testing (_ ∷ es) = heard_testing es

abbrev pub reads : Opening → List Wake → List Test.Event → List Bytes
reads o wakes es = chunks o.read ++ (heard_shaking wakes ++ heard_testing es)

-- How a test has ended on both sides, of which each has read some messages on the control stream.
pub record Whole (host guest : Peer) (n : ℕ) (enc shake_code : Bytes) (c s : Progress × TestRunner)
    (client_reads server_reads : List Bytes) (client_task server_task : ConnRunner × Running)
    : Type 0 where
  pub client_ended : c.0 ≡ ended (ok tt)
  pub server_ended : s.0 ≡ ended (ok tt)
  pub asked : c.1.written ≡ enc ∷ []
  pub answered : s.1.written ≡ enc ∷ shake_code ∷ []
  pub client_heard : client_reads ≡ s.1.written
  pub server_heard : server_reads ≡ c.1.written
  pub client_sent : Done host client_task c.1.queued c.1.received
  pub server_sent : Done guest server_task s.1.queued (shake_code ∷ s.1.received)
  pub to_client : All (Zeros n) c.1.received
  pub to_server : All (ShakeOrZeros n shake_code) s.1.received

module _ (b : Codec) (h : IsCodec b) (id : ℕ) (common : CommonOpts) (o : UdpOpts) (system : Answer)
    (enc : Bytes) (code : b.serialize (new_test id (udp_test common o)) ≡ some enc) where
  abbrev host : Peer
  host = (o.dst_addr, o.dst_port)

  -- The two tasks, in a test of the client's events `es` after `k` handshakes, and of the server's.
  abbrev pub client_task : ℕ → ℕ → Bytes → List Test.Event → ConnRunner × Running
  client_task n k shake_code es =
      task (client_socket b h id common o system enc code) host
        (map says (replicate k shake_code) ++ exchanges n es)

  abbrev pub server_task : ℕ → Bytes → Peer → List Test.Event → ConnRunner × Running
  server_task n shake_code guest es =
      task (server_socket b h id common o system enc code) guest (hears shake_code ∷ exchanges n es)
