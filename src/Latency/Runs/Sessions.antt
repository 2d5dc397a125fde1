-- ===== src/Latency/Runs/Sessions.antt =====
-- A whole test: two handshakes, of which one comes late, and two packets each way, of which one is lost
-- and one comes twice.
use niceperf.Prelude.{true, some, List, [], ◌∷◌, Bytes}
use niceperf.Prelude.Network.{Route}
use niceperf.Common.Os.{v4}
use niceperf.Latency.Args.{CommonOpts}
use niceperf.Latency.Conn.{Peer}
use niceperf.Latency.Conn as Conn
use niceperf.Latency.Runner.{tick, packet}
use niceperf.Latency.Test as Test
use niceperf.Latency.Session.Whole.{Whole}
use niceperf.Latency.Runs.{bare}

abbrev timed : CommonOpts
timed = record bare { interval = some 1; len = some 2 }

abbrev asked : Bytes
asked = 5 ∷ 7007 ∷ 0 ∷ 9 ∷ 2 ∷ 1 ∷ []

abbrev guest : Peer
guest = (v4 3, 4000)

abbrev client_events : List Test.Event
client_events = Test.tick true ∷ Test.packet (0 ∷ 0 ∷ []) ∷ Test.tick true ∷ []

abbrev server_events : List Test.Event
server_events =
    Test.tick true
    ∷ Test.packet (0 ∷ 0 ∷ [])
    ∷ Test.packet (5 ∷ [])
    ∷ Test.tick true
    ∷ Test.packet (0 ∷ 0 ∷ [])
    ∷ []

-- The client's first handshake, its last packet, its second handshake, and the last packet again.
abbrev there : Route
there = (0, 10) ∷ (3, 11) ∷ (1, 12) ∷ (3, 13) ∷ []

abbrev back : Route
back = (1, 14) ∷ []
