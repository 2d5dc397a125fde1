-- ===== src/Latency/Runs/Tests.antt =====
-- The test at concrete inputs.
use niceperf.Prelude.{◌≡◌, refl, none, some, List, [], ◌∷◌, ◌++◌, true, false, arith, inl}
use niceperf.Prelude.Outcome.{ok, panic}
use niceperf.Latency.Args.{Config, udp}
use niceperf.Latency.Conn.{ctx_new}
use niceperf.Latency.Runner.{Side, client, server, TestRunner, ended, new}
use niceperf.Latency.Test.{Event, tick, control, packet, stop, run}
use niceperf.Latency.Test.Loop.{CanStart, after, run-Harmless, run_server_control}
use niceperf.Latency.Runs.{bare, short_code, target}

-- Packets of two bytes, one in each millisecond.
abbrev sample : Config
sample = record {
  common_opts = record bare { interval = some 1; len = some 2 };
  proto = udp target;
}

abbrev ready : Side → TestRunner
ready side = record (new side (some sample) (some 5)) { ctx = some ctx_new }

ready-CanStart : (side : Side) → CanStart (ready side) 2
unfolding new
ready-CanStart side = record {
  cfg = sample;
  interval = 1;
  has_cfg = refl;
  has_interval = refl;
  positive = omega arith;
  has_len = refl;
  small = omega arith;
}

-- A tick, a handshake that comes late, the answer to the packet, and another tick.
abbrev events : List Event
events = tick true ∷ control (5 ∷ []) ∷ packet (0 ∷ 0 ∷ []) ∷ tick true ∷ []

run-Harmless_example : run short_code (events ++ stop true ∷ []) (ready client) ≡ (
  ended (ok tt),
  record (after 2 (ready client) events) { test_cfg = none; ctx = some (record { stop = false }) },
)
unfolding new ctx_new
run-Harmless_example =
    run-Harmless short_code (ready client) 2 ctx_new events [] (ready-CanStart client) refl refl
      (refl, ((refl, inl (5, refl)), (tt, (refl, tt))))

run_server_control_example : (run short_code (control (5 ∷ []) ∷ []) (ready server)).0 ≡ ended panic
unfolding new
run_server_control_example =
    run_server_control short_code (ready server) 2 (5 ∷ []) [] (ready-CanStart server) refl
