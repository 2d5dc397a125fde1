-- ===== src/Latency/Runs/Connections.antt =====
-- The task of a connection at concrete inputs.
use niceperf.Prelude.{◌≡◌, refl, none, some, List, [], ◌∷◌, ◌++◌, true, map}
use niceperf.Common.Os.{v4}
use niceperf.Ping.Task.{gave}
use niceperf.Latency.Conn.{Peer, ConnRunner, SocketKind, Event, outgoing, incoming, panicked, run}
use niceperf.Latency.Conn.Peers.{OnlyPeer, run-OnlyPeer}
use niceperf.Latency.Conn.Serving.{Exchange, says, hears, event, after, run_stray}

abbrev host : Peer
host = (v4 9, 7007)

abbrev guest : Peer
guest = (v4 3, 40000)

abbrev of_client : ConnRunner
of_client = record {
  socket = record { kind = SocketKind.client; local = none; peer = some host };
  sent = [];
  delivered = [];
}

abbrev of_server : ConnRunner
of_server = record {
  socket = record { kind = SocketKind.server; local = some host; peer = none };
  sent = [];
  delivered = [];
}

-- A packet each way, and a packet of a stranger.
abbrev events : List Event
events =
    outgoing (1 ∷ []) (gave 1) ∷ incoming host (2 ∷ []) true ∷ incoming guest (3 ∷ []) true ∷ []

run-OnlyPeer_example : OnlyPeer host of_client (run of_client events).0 events
run-OnlyPeer_example = run-OnlyPeer host of_client events refl tt

abbrev exchanges : List Exchange
exchanges = says (1 ∷ []) ∷ hears (2 ∷ []) ∷ says (4 ∷ []) ∷ []

run_stray_example :
    run of_client (map (event host) exchanges ++ incoming guest (6 ∷ []) true ∷ [])
    ≡ (after host of_client exchanges, panicked)
run_stray_example = run_stray host guest of_client exchanges (6 ∷ []) true [] refl refl
