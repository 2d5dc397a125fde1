-- ===== src/Latency/Runs/Servers.antt =====
-- The control server at concrete inputs.
use niceperf.Prelude.{◌≡◌, refl, some, [], ◌∷◌, ◌++◌, true, replicate}
use niceperf.Prelude.Outcome.{ok}
use niceperf.Common.Os.{v4, ipv4, dgram, udp}
use niceperf.Common.Quic.{QuicServer, server_transport}
use niceperf.Latency.Control.{connecting, ctrl_c, ended, started, run}
use niceperf.Latency.Control.Shutdown.{stopped_client, run-stopped}

abbrev quinn : QuicServer
quinn = record {
  config = record { cert_chain = 1 ∷ []; private_key = 2 ∷ []; transport = server_transport };
  socket = record { domain = ipv4; kind = dgram; protocol = some udp };
  bound = (v4 0, 4443);
}

run-stopped_example :
    run (replicate 2 (connecting true true) ++ ctrl_c (λ j. true) ∷ []) (started quinn)
    ≡ (ended (ok tt), record { quinn = quinn; clients = replicate 2 stopped_client })
run-stopped_example = run-stopped quinn 2 (λ j. true) [] (λ j lt. refl)
