-- ===== src/Ping/Tcp/Runs.antt =====
-- The TCP theorems at concrete inputs.
use niceperf.Prelude.{ℕ, ◌≡◌, refl, List, [], ◌∷◌, ◌++◌, arith, map}
use niceperf.Prelude.Outcome.{ok, err}
use niceperf.Prelude.Words.{debug, release}
use niceperf.Ping.Logger.{TcpEchoResult}
use niceperf.Ping.Task.{gave, waiting, ended, join_failed}
use niceperf.Ping.Echo.{EchoPacket, IsPacket}
use niceperf.Ping.Echo.Plain.{plain, plain-IsBincode, whole, fields}
use niceperf.Ping.Tcp.{
  closed, recv_task, Frame, frame, disconnected, accepted, accept_failed, client_handler, fresh,
  run,
}
use niceperf.Ping.Tcp.Client.{Reply, arrival, rows, recv_task-rows}
use niceperf.Ping.Tcp.Server.{Ask, ask, reply, Served, client_handler-Served}
use niceperf.Ping.Tcp.Accepting.{run_busy, run_bad_frame, connection, run-serves}

abbrev hello : EchoPacket
hello = record {
  identifier = 7;
  send_timestamp = 2000000;
  recv_timestamp = 0;
  seq = 1;
  payload = 0 ∷ [];
}

hello-IsPacket : IsPacket hello
hello-IsPacket = omega arith

abbrev nothing : TcpEchoResult ℕ
nothing = record {
  seq = 0;
  send_timestamp = 0;
  server_timestamp = 0;
  recv_timestamp = 0;
  rtt = 0;
  size = 0;
  src_addr = "10.0.0.2";
  dst_addr = "10.0.0.1";
  cc = "cubic";
  retrans = 0;
}

abbrev two_replies : List Reply
two_replies =
    record { packet = hello; bytes = fields hello; now = 5000000; retrans = 0 }
    ∷ record { packet = hello; bytes = fields hello; now = 9000000; retrans = 2 }
    ∷ []

recv_task-rows_example :
    recv_task whole plain debug nothing (map (arrival whole) two_replies ++ closed ∷ [])
    ≡ (rows whole nothing two_replies, ended (ok tt))
recv_task-rows_example =
    recv_task-rows whole plain debug nothing two_replies []
      ((refl, omega arith), ((refl, omega arith), tt))

abbrev two_asks : List Ask
two_asks =
    record { packet = hello; elapsed_at = 0; now = 1000000; system_time = 5 }
    ∷ record { packet = hello; elapsed_at = 4000000; now = 4000001; system_time = 6 }
    ∷ []

abbrev bad : Frame
bad = record { bytes = 1 ∷ []; elapsed_at = 0; now = 0; clock = gave 0; send = gave 0 }

client_handler-Served_example :
    Served whole plain plain-IsBincode
      (fresh whole plain)
      (client_handler whole plain debug
        (fresh whole plain)
        (map (ask whole plain plain-IsBincode) two_asks ++ disconnected ∷ [])).0
      two_asks
    × ((client_handler whole plain debug
          (fresh whole plain)
          (map (ask whole plain plain-IsBincode) two_asks ++ disconnected ∷ [])).1
        ≡ ended (ok tt))
client_handler-Served_example =
    client_handler-Served whole plain plain-IsBincode debug (fresh whole plain) two_asks []
      ((hello-IsPacket, omega arith), ((hello-IsPacket, omega arith), tt)) (omega arith)

run_busy_example :
    run whole plain debug
      (accepted (map (ask whole plain plain-IsBincode) two_asks ++ []) ∷ accept_failed ∷ [])
    ≡ (
      (client_handler whole plain debug
            (fresh whole plain)
            (map (ask whole plain plain-IsBincode) two_asks ++ [])).0
          ∷ [],
      waiting,
    )
run_busy_example =
    run_busy whole plain plain-IsBincode debug two_asks (accept_failed ∷ [])
      ((hello-IsPacket, omega arith), ((hello-IsPacket, omega arith), tt)) (omega arith)

run_bad_frame_example :
    ((run whole plain release
        (accepted (map (ask whole plain plain-IsBincode) two_asks ++ frame bad ∷ []) ∷ [])).1
      ≡ ended (err join_failed))
    × (map
          (λ s. s.replies)
          (run whole plain release
            (accepted (map (ask whole plain plain-IsBincode) two_asks ++ frame bad ∷ []) ∷ [])).0
        ≡ map (reply whole plain plain-IsBincode) two_asks ∷ [])
run_bad_frame_example =
    run_bad_frame whole plain plain-IsBincode release two_asks bad [] []
      ((hello-IsPacket, omega arith), ((hello-IsPacket, omega arith), tt)) (omega arith) refl

run-serves_example :
    (map
        (λ s. s.replies)
        (run whole plain debug
          (map (connection whole plain plain-IsBincode) (two_asks ∷ [] ∷ []))).0
      ≡ map (map (reply whole plain plain-IsBincode)) (two_asks ∷ [] ∷ []))
    × ((run whole plain debug (map (connection whole plain plain-IsBincode) (two_asks ∷ [] ∷ []))).1
        ≡ waiting)
run-serves_example = run-serves whole plain plain-IsBincode debug (two_asks ∷ [] ∷ []) (
  (((hello-IsPacket, omega arith), ((hello-IsPacket, omega arith), tt)), omega arith),
  ((tt, omega arith), tt),
)
