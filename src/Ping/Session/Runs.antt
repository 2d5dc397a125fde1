-- ===== src/Ping/Session/Runs.antt =====
-- Three packets over a network that loses the second, repeats the third and brings it before the first;
-- and over a connection that ends after the second.
use Prim.Native.Nat.{min}
use niceperf.Prelude.{ℕ, ◌≡◌, refl, true, false, none, some, List, [], ◌∷◌, ◌++◌, arith, All, map}
use niceperf.Prelude.Outcome.{ok, Yields}
use niceperf.Prelude.Words.{debug, release}
use niceperf.Common.Os.{v4, Answer}
use niceperf.Common.Sockets.{udp_new}
use niceperf.Ping.Logger.{UdpEchoResult, TcpEchoResult}
use niceperf.Ping.LogTask.{LogConfig}
use niceperf.Ping.LogTask.Whole.{all_written, Log}
use niceperf.Ping.Task.{waiting, ended}
use niceperf.Ping.Echo.{EchoPacket}
use niceperf.Ping.Echo.Send.{good}
use niceperf.Ping.Echo.Plain.{plain, plain-IsBincode, whole}
use niceperf.Ping.Udp as Udp
use niceperf.Ping.Udp.ClientSocket.{Peer, client_socket}
use niceperf.Ping.Tcp as Tcp
use niceperf.Ping.Session.{UdpNetwork, TcpNetwork, udp_log, udp_session, tcp_log, tcp_session}
use niceperf.Ping.Session.UdpReplies.{fresh}
use niceperf.Ping.Session.Genuine.{UdpGenuine, TcpGenuine}
use niceperf.Ping.Session.Logged as Logged
use niceperf.Ping.Session.Logged.{udp_session-logged}
use niceperf.Ping.Session.InOrder as InOrder
use niceperf.Ping.Session.InOrder.{count_from, tcp_session-logged}

abbrev blank : EchoPacket
blank = record { identifier = 9; send_timestamp = 0; recv_timestamp = 0; seq = 0; payload = 0 ∷ [] }

abbrev three : List (ℕ × ℕ)
three = (1000000, 5) ∷ (2000000, 5) ∷ (3000000, 5) ∷ []

abbrev config : LogConfig
config = record { profile = debug; has_logger = true; log = false }

abbrev udp_client : Udp.Prepared
udp_client = record {
  dst_addr = 1;
  src_addr = 2;
  payload = blank;
  interval = 100;
  num_ping = some 3;
  has_logger = true;
  log = false;
}

abbrev udp_nothing : UdpEchoResult ℕ
udp_nothing = record {
  seq = 0;
  send_timestamp = 0;
  server_timestamp = 0;
  recv_timestamp = 0;
  rtt = 0;
  size = 0;
  src_addr = "10.0.0.2";
  dst_addr = "10.0.0.1";
}

abbrev accepting : Answer
accepting t c = none

abbrev server_peer : Peer
server_peer = (v4 1, 4000)

abbrev lossy : UdpNetwork
lossy = record {
  early = (0, 70) ∷ (7, 71) ∷ [];
  later = (2, 72) ∷ [];
  back = (1, 4000000) ∷ (0, 5000000) ∷ (1, 6000000) ∷ [];
  peer = (v4 2, 5000);
  system = accepting;
}

udp_client-IsSending : Logged.IsSending udp_client three
udp_client-IsSending = record {
  limit = refl;
  ticks = omega arith;
  packet = omega arith;
  times = omega arith;
  few = omega arith;
}

lossy-IsServing : Logged.IsServing server_peer lossy
unfolding client_socket udp_new
lossy-IsServing = record { socket = _; made = refl; early = omega arith; later = omega arith }

udp_session-logged_example :
    (results : List (UdpEchoResult ℕ)) × (udp_session whole plain debug udp_client udp_nothing
        (fresh server_peer)
        lossy
        (map good three ++ [])
      ≡ (results, waiting))
    × All (UdpGenuine whole three) results
    × Yields (Log config results) (udp_log whole config (all_written results))
udp_session-logged_example =
    udp_session-logged whole plain plain-IsBincode debug udp_client udp_nothing server_peer lossy
      three [] config udp_client-IsSending lossy-IsServing (omega arith) (omega arith) (omega arith)

abbrev tcp_client : Tcp.Prepared
tcp_client = record {
  dst_addr = 1;
  src_addr = 2;
  payload = blank;
  interval = 100;
  num_ping = some 3;
  has_logger = true;
  log = false;
  cc = "cubic";
}

abbrev tcp_nothing : TcpEchoResult ℕ
tcp_nothing = record {
  seq = 0;
  send_timestamp = 0;
  server_timestamp = 0;
  recv_timestamp = 0;
  rtt = 0;
  size = 0;
  src_addr = "10.0.0.2";
  dst_addr = "10.0.0.1";
  cc = "cubic";
  retrans = 0;
}

abbrev broken : TcpNetwork
broken = record {
  server =
      record { elapsed_at = 0; now = 1; system_time = 70 }
      ∷ record { elapsed_at = 2; now = 3; system_time = 71 }
      ∷ [];
  client =
      record { now = 4000000; retrans = 0 }
      ∷ record { now = 5000000; retrans = 1 }
      ∷ record { now = 6000000; retrans = 0 }
      ∷ [];
}

tcp_client-IsSending : InOrder.IsSending tcp_client three
tcp_client-IsSending = record {
  limit = refl;
  ticks = omega arith;
  packet = omega arith;
  times = omega arith;
  few = omega arith;
}

tcp_session-logged_example :
    (results : List (TcpEchoResult ℕ)) × (tcp_session whole plain release tcp_client tcp_nothing
        broken
        (map good three ++ [])
      ≡ (results, ended (ok tt)))
    × (map (λ (q : TcpEchoResult ℕ). q.seq) results ≡ count_from 0 (min 3 (min 2 3)))
    × All (TcpGenuine whole three) results
    × Yields (Log config results) (tcp_log whole config (all_written results))
tcp_session-logged_example =
    tcp_session-logged whole plain plain-IsBincode release tcp_client tcp_nothing broken three []
      config tcp_client-IsSending (omega arith) (omega arith) (omega arith)
