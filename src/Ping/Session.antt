-- ===== src/Ping/Session.antt =====
-- The tasks of a run together: the clients of ping/src/icmp.rs, udp.rs and tcp.rs with the host that
-- answers or their servers, and the network between them, up to the log.
pub mod UdpReplies
pub mod OverUdp
pub mod Genuine
pub mod Logged
pub mod OverTcp
pub mod InOrder
pub mod OverIcmp
pub mod Answers
pub mod Answered
mod Runs
mod Pings
use niceperf.Prelude.{ℕ, Bool, true, List, [], ◌∷◌, ◌++◌, Bytes, map, length, zip_with}
use niceperf.Prelude.Outcome.{Outcome}
use niceperf.Prelude.Words.{Profile}
use niceperf.Common.Os.{Answer}
use niceperf.Common.Statistics.{Float}
use niceperf.Ping.Logger.{PingResult, UdpEchoResult, TcpEchoResult}
use niceperf.Ping.Task.{Error, gave, TaskEnd, paced}
use niceperf.Ping.LogTask.{View, LogConfig, LogState, start, log_task}
use niceperf.Prelude.Network.{Route, deliver}
use niceperf.Ping.Echo.{Bincode, Round, SendState, send_task}
use niceperf.Ping.Udp.ClientSocket.{Peer}
use niceperf.Common.Sockets.Raw.{value}
use niceperf.Ping.Icmp as Icmp
use niceperf.Ping.Udp as Udp
use niceperf.Ping.Tcp as Tcp

-- What a log reader takes from a result.
module _ {F : Type 0} where
  abbrev pub icmp_view : View F (PingResult F)
  icmp_view = record { recv_timestamp = λ r. r.recv_timestamp; rtt = λ r. r.rtt }

  abbrev pub udp_view : View F (UdpEchoResult F)
  udp_view = record { recv_timestamp = λ r. r.recv_timestamp; rtt = λ r. r.rtt }

  abbrev pub tcp_view : View F (TcpEchoResult F)
  tcp_view = record { recv_timestamp = λ r. r.recv_timestamp; rtt = λ r. r.rtt }

module _ {F : Type 0} (f : Float F) where
  -- The log readers of the three clients. Each result comes with whether its row can be written.
  unfoldable pub icmp_log :
      LogConfig → List (PingResult F × Bool) → Outcome Error (LogState F (PingResult F))
  icmp_log c rs = log_task f icmp_view c (start f icmp_view) rs

  unfoldable pub udp_log :
      LogConfig → List (UdpEchoResult F × Bool) → Outcome Error (LogState F (UdpEchoResult F))
  udp_log c rs = log_task f udp_view c (start f udp_view) rs

  unfoldable pub tcp_log :
      LogConfig → List (TcpEchoResult F × Bool) → Outcome Error (LogState F (TcpEchoResult F))
  tcp_log c rs = log_task f tcp_view c (start f tcp_view) rs

-- The send loop, from its start: that of the UDP client, and the TCP client's copy of it.
module _ (b : Bincode) where
  unfoldable pub udp_send : Udp.Prepared → List Round → TaskEnd × SendState
  udp_send r rounds =
      let s : SendState = record { counter = 0; payload = r.payload; sent = [] } in
      paced r.interval s (send_task b r.num_ping s rounds)

  unfoldable pub tcp_send : Tcp.Prepared → List Round → TaskEnd × SendState
  tcp_send r rounds =
      let s : SendState = record { counter = 0; payload = r.payload; sent = [] } in
      paced r.interval s (send_task b r.num_ping s rounds)

-- The send task of the ICMP client, from its start.
unfoldable pub icmp_send :
    Icmp.Etherparse → Icmp.Prepared → List Icmp.Round → TaskEnd × Icmp.SendState
icmp_send e r rounds =
    let s : Icmp.SendState = record { counter = 0; payload = r.payload; sent = [] } in
    paced r.interval s (Icmp.send_task e r.num_ping r.identifier s rounds)

-- What is between an ICMP client and the host: the packet that the host gives back for a request, the
-- packets of others that come to the client's socket, and which of all these come when.
pub record IcmpNetwork : Type 0 where
  pub host : Bytes → Bytes
  pub strays : List Bytes
  pub back : Route

module _ {F : Type 0} (f : Float F) (e : Icmp.Etherparse) where
  -- The results of an ICMP client, from its rounds to what it reads, and how its receive task stands.
  unfoldable pub icmp_session :
      Profile
      → Icmp.Prepared
      → PingResult F
      → IcmpNetwork
      → List Icmp.Round
      → List (PingResult F) × TaskEnd
  icmp_session p r result w rounds = Icmp.recv_task f e p r.identifier result (
      map (λ (a : Bytes × ℕ). Icmp.arrived a.0 (gave a.1) true)
        (deliver (map w.host (icmp_send e r rounds).1.sent ++ w.strays) w.back))

-- What is between a UDP client and its server: what comes to the server's socket, what comes to the socket
-- of the client's handler, and what comes back, each with the time at which it is read; the client's
-- address, and the system's answers to the server.
pub record UdpNetwork : Type 0 where
  pub early : Route
  pub later : Route
  pub back : Route
  pub peer : Peer
  pub system : Answer

module _ (b : Bincode) where
  abbrev pub to_server : UdpNetwork → Bytes × ℕ → Udp.ServerEvent
  to_server w (bytes, t) = Udp.from w.peer bytes (gave t) (gave (length bytes)) w.system

  abbrev pub to_handler : Bytes × ℕ → Udp.ClientEvent
  to_handler (bytes, t) = Udp.datagram bytes (gave t) (gave (length bytes))

  -- The replies of a server to what was sent: those of its own socket and those of the handler.
  unfoldable pub udp_replies : Udp.UdpServer → UdpNetwork → List Bytes → List Bytes
  udp_replies s w sent =
      map (λ (a : Peer × Bytes). a.1)
        (Udp.run b s (map (to_server w) (deliver sent w.early))).0.answers
      ++ (Udp.handle_client b (map to_handler (deliver sent w.later) ++ Udp.idle ∷ [])).0

module _ {F : Type 0} (f : Float F) (b : Bincode) where
  -- The results of a UDP client, from its rounds to what it reads, and how its receive task stands.
  unfoldable pub udp_session :
      Profile
      → Udp.Prepared
      → UdpEchoResult F
      → Udp.UdpServer
      → UdpNetwork
      → List Round
      → List (UdpEchoResult F) × TaskEnd
  udp_session p r result s w rounds = Udp.recv_task f b p result (
      map (λ (a : Bytes × ℕ). Udp.arrived a.0 (gave a.1) true)
        (deliver (udp_replies b s w (udp_send b r rounds).1.sent) w.back))

-- What is read of clocks and sockets about a frame, by the server and by the client.
pub record ServerReads : Type 0 where
  pub elapsed_at : ℕ
  pub now : ℕ
  pub system_time : ℕ

pub record ClientReads : Type 0 where
  pub now : ℕ
  pub retrans : ℕ

-- A TCP connection delivers frames in order, up to where it ends: those that come to the server, and those
-- of its answers that come to the client.
pub record TcpNetwork : Type 0 where
  pub server : List ServerReads
  pub client : List ClientReads

abbrev pub to_frame : Bytes → ServerReads → Tcp.FrameEvent
to_frame bytes c = Tcp.frame (record {
  bytes = bytes;
  elapsed_at = c.elapsed_at;
  now = c.now;
  clock = gave c.system_time;
  send = gave (length bytes);
})

abbrev pub to_client : Bytes → ClientReads → Tcp.Event
to_client bytes c = Tcp.arrived bytes (gave c.now) (value c.retrans) true

module _ {F : Type 0} (f : Float F) (b : Bincode) where
  -- The handler of the connection, which sees all frames and then its end.
  unfoldable pub tcp_replies : Profile → TcpNetwork → List Bytes → List Bytes
  tcp_replies p w sent =
      (Tcp.client_handler f b p (Tcp.fresh f b)
        (zip_with to_frame sent w.server ++ Tcp.disconnected ∷ [])).0.replies

  -- The results of a TCP client, from its rounds to what it reads, and how its receive task ends.
  unfoldable pub tcp_session :
      Profile
      → Tcp.Prepared
      → TcpEchoResult F
      → TcpNetwork
      → List Round
      → List (TcpEchoResult F) × TaskEnd
  tcp_session p r result w rounds = Tcp.recv_task f b p result (
      zip_with to_client (tcp_replies p w (tcp_send b r rounds).1.sent) w.client ++ Tcp.closed ∷ [])
