-- ===== src/Latency/Runs/Handshakes.antt =====
-- The setup of a test at concrete inputs.
use niceperf.Prelude.{◌≡◌, ◌≢◌, refl, some, [], ◌∷◌, true, replicate, Bytes, List, arith}
use niceperf.Prelude.Outcome.{ok, err}
use niceperf.Common.Sockets.{udp_new, bind_to_device}
use niceperf.Latency.Conn.{ctx_new, Running, SocketKind}
use niceperf.Latency.Conn as Conn
use niceperf.Latency.Runner.{
  client, server, TestRunner, Wake, tick, control, packet, timeout, waiting, ended,
  handshake_timeout, new, setup, shake,
}
use niceperf.Latency.Runner.Link.{
  Link, client_after, server_after, Reach, here, next, client_ticks, server_receives,
}
use niceperf.Latency.Runner.Stages.{Inv, ok-ne-err, Inv-completes}
use niceperf.Latency.Runner.Negotiation.{udp_test, hears, opened_client, opened_link, opened-Inv}
use niceperf.Latency.Runner.Ready.{IsReady}
use niceperf.Latency.Runner.Setup.{IsOpened, setup-IsReady}
use niceperf.Latency.Runner.Silence.{silent_waits, shake_silent}
use niceperf.Latency.Runner as Runner
use niceperf.Latency.Runs.{bare, short_code, short_code-IsCodec, accepting, target}

-- The code of the test with the id 5.
abbrev test_code : Bytes
test_code = 5 ∷ 7007 ∷ 0 ∷ 9 ∷ []

-- The two sides after the opening, after a tick, and after the packet of that tick has come.
abbrev start : Link
start = opened_link short_code short_code-IsCodec 5 bare target accepting test_code refl

abbrev ticked : Link
ticked = client_after start (shake short_code client (tick true ∷ []) start.client_side)

abbrev heard : Link
heard = server_after ticked (shake short_code server (packet (5 ∷ []) true ∷ []) ticked.server_side)

heard-Reach : Reach short_code start heard
unfolding shake Runner.round Runner.queue Conn.ctx_send Runner.negotiate Runner.write
    Runner.client_answer Runner.open_conn new Conn.new udp_new bind_to_device
heard-Reach =
    next (next here (client_ticks refl refl)) (server_receives [] (5 ∷ []) [] refl refl refl)

opened-Inv_example : Inv 5 (udp_test bare target) ctx_new ctx_new (5 ∷ []) heard
unfolding Conn.new udp_new bind_to_device
opened-Inv_example =
    opened-Inv short_code short_code-IsCodec 5 bare target accepting test_code refl (5 ∷ []) heard
      (omega arith) (omega arith) refl refl refl heard-Reach

heard-in_time : heard.server_at ≢ ended (err handshake_timeout)
unfolding shake Runner.round Runner.queue Conn.ctx_send Runner.negotiate Runner.write
    Runner.client_answer Runner.open_conn new Conn.new udp_new bind_to_device Runner.server_hears
    Runner.finish Runner.server_answer
heard-in_time e = ok-ne-err e

Inv-completes_example :
    (l : Link) × Reach short_code heard l
    × (l.client_at ≡ ended (ok tt))
    × (l.server_at ≡ ended (ok tt))
Inv-completes_example =
    Inv-completes short_code 5 (udp_test bare target) ctx_new ctx_new (5 ∷ []) refl refl
      (omega arith) heard heard-in_time opened-Inv_example

-- A client that ticks twice, hears another test's handshake, and then its own.
abbrev wakes : List Wake
wakes = tick true ∷ tick true ∷ control (8 ∷ []) ∷ control (5 ∷ []) ∷ []

setup-IsReady_example :
    IsOpened short_code (hears test_code accepting)
    × IsReady short_code client
        (some 5)
        wakes
        (setup short_code
          (hears test_code accepting)
          wakes
          (new client (some (udp_test bare target)) (some 5))).1
unfolding setup shake Runner.round Runner.queue Conn.ctx_send Runner.negotiate Runner.write
    Runner.client_answer Runner.open_conn Runner.client_hears Runner.finish new Conn.new udp_new
    bind_to_device
setup-IsReady_example =
    setup-IsReady short_code (hears test_code accepting) wakes
      (new client (some (udp_test bare target)) (some 5)) _ refl

abbrev waiting_client : TestRunner
waiting_client = opened_client short_code short_code-IsCodec 5 bare target accepting test_code refl

-- Two rounds that each take twenty seconds.
shake_silent_example :
    shake short_code client (silent_waits 0 100 (20000 ∷ 20000 ∷ [])) waiting_client
    ≡ (waiting, record waiting_client { queued = replicate 2 (5 ∷ []) })
unfolding new
shake_silent_example =
    shake_silent short_code waiting_client 5 (5 ∷ []) ctx_new 0 100 (20000 ∷ 20000 ∷ []) refl refl
      refl (omega arith)
