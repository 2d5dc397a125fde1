-- ===== src/Ping/Udp/Server.antt =====
-- What the UDP server answers, and what ends it.
use niceperf.Prelude.{
  ℕ, ◌^◌, ◌<◌, ◌≡◌, refl, sym, ap, ◌∙◌, none, List, [], ◌∷◌, ◌++◌, Bytes, length, map, append-nil,
  append_assoc,
}
use niceperf.Prelude.Outcome.{ok, err}
use niceperf.Common.Os.{Answer}
use niceperf.Common.Sockets.{Socket}
use niceperf.Ping.Task.{bad_packet, client_timeout, Sys, gave, waiting, ended}
use niceperf.Ping.Echo.{EchoPacket, Bincode, IsPacket, IsBincode, echo}
use niceperf.Ping.Echo.Send.{echo-bytes}
use niceperf.Ping.Udp.ClientSocket.{Peer, client_socket}
use niceperf.Ping.Udp.{
  ClientEvent, idle, datagram, recv_error, handle_client, ServerEvent, from, UdpServer, answer_to,
  serve, run,
}

-- One request of a peer, at a time, with a system that makes the sockets.
pub record Request : Type 0 where
  pub peer : Peer
  pub packet : EchoPacket
  pub now : ℕ
  pub system : Answer

module _ (b : Bincode) (h : IsBincode b) where
  -- Packets with the times at which the server answers them.
  abbrev pub Timed : List (EchoPacket × ℕ) → Type 0
  Timed [] = Unit {0}
  Timed ((p, now) ∷ ps) = (IsPacket p × (now < 2 ^ 128)) × Timed ps

  abbrev pub reply_to : EchoPacket × ℕ → Bytes
  reply_to (p, now) = h.bytes (record p { recv_timestamp = now })

  abbrev pub asked : EchoPacket × ℕ → ClientEvent
  asked (p, now) = datagram (h.bytes p) (gave now) (gave (length (h.bytes p)))

  -- Where the packets and times fit their types and `send` works, a handler answers every packet of its
  -- client in order with the server's time in it, and ends with a timeout once the client is silent or its socket fails.
  pub handle_client-replies :
      (ps : List (EchoPacket × ℕ)) (more : List ClientEvent)
      → Timed ps
      → (handle_client b (map asked ps ++ idle ∷ more)
          ≡ (map reply_to ps, ended (err client_timeout)))
        × (handle_client b (map asked ps ++ recv_error ∷ more)
            ≡ (map reply_to ps, ended (err client_timeout)))
  unfolding handle_client
  handle_client-replies [] more t = (refl, refl)
  handle_client-replies ((p, now) ∷ ps) more ((fits, time), t) =
      let later = handle_client-replies ps more t in
      (rw (echo-bytes b h p now fits time, later.0), rw (echo-bytes b h p now fits time, later.1))

  abbrev pub request : Request → ServerEvent
  request r =
      from r.peer (h.bytes r.packet) (gave r.now) (gave (length (h.bytes r.packet))) r.system

  -- The packets and times fit, and the system accepts the calls for the client's socket.
  abbrev pub Accepted : Peer → List Request → Type 0
  Accepted local [] = Unit {0}
  Accepted local (r ∷ rs) =
      (IsPacket r.packet
        × (r.now < 2 ^ 128)
        × ((s : Socket) × ((client_socket local r.peer r.system []).0 ≡ ok s)))
      × Accepted local rs

  abbrev pub answer_of : Request → Peer × Bytes
  answer_of r = (r.peer, reply_to (r.packet, r.now))

  abbrev served : UdpServer → Request → UdpServer
  served s r = record s {
    answers = s.answers ++ answer_of r ∷ [];
    handlers = s.handlers ++ r.peer ∷ [];
  }

  run_step :
      (s : UdpServer) (r : Request) (es : List ServerEvent) (socket : Socket)
      → IsPacket r.packet
      → r.now < 2 ^ 128
      → (client_socket s.local r.peer r.system []).0 ≡ ok socket
      → run b s (request r ∷ es) ≡ run b (served s r) es
  unfolding run serve answer_to
  run_step s r es socket fits time made = rw (echo-bytes b h r.packet r.now fits time, made)

  -- The server answers each request, and then goes on with what follows.
  run_requests :
      (s : UdpServer) (rs : List Request) (es : List ServerEvent)
      → Accepted s.local rs
      → run b s (map request rs ++ es)
        ≡ run b
            (record s {
              answers = s.answers ++ map answer_of rs;
              handlers = s.handlers ++ map (λ r. r.peer) rs;
            })
            es
  run_requests s [] es a = rw (append-nil s.answers, append-nil s.handlers)
  run_requests s (r ∷ rs) es ((fits, time, (socket, made)), a) =
      run_step s r (map request rs ++ es) socket fits time made
      ∙ run_requests (served s r) rs es a
      ∙ rw (
        append_assoc s.answers (answer_of r ∷ []) (map answer_of rs),
        append_assoc s.handlers (r.peer ∷ []) (map (λ q. q.peer) rs),
      )

  -- Where the packets and times fit their types, sends succeed and the system makes the sockets, the
  -- server answers every request to the peer that sent it, in order, starts a handler for each, and
  -- waits for the next.
  pub run-answers :
      (s : UdpServer) (rs : List Request)
      → Accepted s.local rs
      → run b s (map request rs) ≡ (
        record s {
          answers = s.answers ++ map answer_of rs;
          handlers = s.handlers ++ map (λ r. r.peer) rs;
        },
        waiting,
      )
  run-answers s rs a =
      ap (run b s) (sym (append-nil (map request rs)))
      ∙ run_requests s rs [] a
      ∙ (unfold run in refl)

  bad_packet_step :
      (s : UdpServer) (peer : Peer) (bytes : Bytes) (clock sent : Sys) (system : Answer)
      (es : List ServerEvent)
      → b.deserialize bytes ≡ none
      → run b s (from peer bytes clock sent system ∷ es) ≡ (s, ended (err bad_packet))
  unfolding run serve answer_to echo
  bad_packet_step s peer bytes clock sent system es bad = rw bad

  -- After any requests that it has answered, a datagram of any host that is no packet ends the whole
  -- server: the requests before it have their answers and handlers, and the clients after it have
  -- none. The packets and times of the requests fit their types, their sends succeed, and the system
  -- makes their sockets.
  pub run_bad_packet :
      (s : UdpServer) (rs : List Request) (peer : Peer) (bytes : Bytes) (clock sent : Sys)
      (system : Answer) (later : List Request)
      → Accepted s.local rs
      → b.deserialize bytes ≡ none
      → run b s (map request rs ++ from peer bytes clock sent system ∷ map request later) ≡ (
        record s {
          answers = s.answers ++ map answer_of rs;
          handlers = s.handlers ++ map (λ r. r.peer) rs;
        },
        ended (err bad_packet),
      )
  run_bad_packet s rs peer bytes clock sent system later a bad =
      run_requests s rs (from peer bytes clock sent system ∷ map request later) a
      ∙ bad_packet_step _ peer bytes clock sent system (map request later) bad
