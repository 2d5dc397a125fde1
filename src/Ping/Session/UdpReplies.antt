-- ===== src/Ping/Session/UdpReplies.antt =====
-- The replies of a UDP server to the packets that come to it, whatever the network does on the way.
use niceperf.Prelude.{
  ℕ, ◌^◌, ◌<◌, ◌≡◌, sym, ap, ◌∙◌, List, [], ◌∷◌, ◌++◌, Bytes, All, All-append, map, map-append,
  map-map,
}
use niceperf.Prelude.Outcome.{ok}
use niceperf.Common.Sockets.{Socket}
use niceperf.Prelude.Network.{Route, deliver, deliver-All, deliver-times, deliver-map, on_first}
use niceperf.Ping.Echo.{EchoPacket, Bincode, IsPacket, IsBincode}
use niceperf.Ping.Udp as Udp
use niceperf.Ping.Udp.ClientSocket.{Peer, client_socket}
use niceperf.Ping.Udp.Server.{
  Request, Timed, Accepted, request, answer_of, run-answers, handle_client-replies,
}
use niceperf.Ping.Session.{UdpNetwork, to_server, to_handler, udp_replies}

-- The times at which packets are read fit a `u128`.
abbrev pub InRange : Route → Type 0
InRange = All (λ a. a.1 < 2 ^ 128)

-- A packet with the server's time in it.
abbrev pub stamped : EchoPacket × ℕ → EchoPacket
stamped (q, t) = record q { recv_timestamp = t }

-- A server that has not heard of anyone yet.
abbrev pub fresh : Peer → Udp.UdpServer
fresh local = record { local = local; answers = []; handlers = [] }

module _ (b : Bincode) (h : IsBincode b) where
  abbrev to_request : UdpNetwork → EchoPacket × ℕ → Request
  to_request w (q, t) = record { peer = w.peer; packet = q; now = t; system = w.system }

  -- What the server stamps, of the packets `qs`.
  abbrev pub stamped_all : UdpNetwork → List EchoPacket → List EchoPacket
  stamped_all w qs = map stamped (deliver qs w.early ++ deliver qs w.later)

  accepted :
      (local : Peer) (w : UdpNetwork) (socket : Socket) (qs : List (EchoPacket × ℕ))
      → (client_socket local w.peer w.system []).0 ≡ ok socket
      → All (λ a. IsPacket a.0) qs
      → All (λ a. a.1 < 2 ^ 128) qs
      → Accepted b h local (map (to_request w) qs)
  accepted local w socket [] made fits times = tt
  accepted local w socket (q ∷ qs) made (fit, fits) (time, times) =
      ((fit, time, (socket, made)), accepted local w socket qs made fits times)

  timed :
      (qs : List (EchoPacket × ℕ))
      → All (λ a. IsPacket a.0) qs
      → All (λ a. a.1 < 2 ^ 128) qs
      → Timed b h qs
  timed [] fits times = tt
  timed (q ∷ qs) (fit, fits) (time, times) = ((fit, time), timed qs fits times)

  -- Packets that are delivered encoded are delivered.
  pub delivered_bytes :
      {C : Type 0} (g : Bytes × ℕ → C) (qs : List EchoPacket) (route : Route)
      → map g (deliver (map h.bytes qs) route)
        ≡ map (λ (a : EchoPacket × ℕ). g (h.bytes a.0, a.1)) (deliver qs route)
  delivered_bytes g qs route =
      ap (map g) (deliver-map h.bytes qs route) ∙ map-map g (on_first h.bytes) (deliver qs route)

  server-answers :
      (local : Peer) (w : UdpNetwork) (socket : Socket) (qs : List EchoPacket)
      → (client_socket local w.peer w.system []).0 ≡ ok socket
      → All IsPacket qs
      → InRange w.early
      → map
          (λ (a : Peer × Bytes). a.1)
          (Udp.run b
            (fresh local)
            (map (to_server b w) (deliver (map h.bytes qs) w.early))).0.answers
        ≡ map h.bytes (map stamped (deliver qs w.early))
  server-answers local w socket qs made fits times =
      let heard = deliver qs w.early in
      ap (λ es. map (λ (a : Peer × Bytes). a.1) (Udp.run b (fresh local) es).0.answers)
        (delivered_bytes (to_server b w) qs w.early
          ∙ sym (map-map (request b h) (to_request w) heard))
      ∙ ap (λ (r : Udp.UdpServer × _). map (λ (a : Peer × Bytes). a.1) r.0.answers)
          (run-answers b h (fresh local) (map (to_request w) heard) (
            accepted local w socket heard made (deliver-All IsPacket qs w.early fits)
              (deliver-times (λ t. t < 2 ^ 128) qs w.early times)))
      ∙ map-map (λ (a : Peer × Bytes). a.1) (answer_of b h) (map (to_request w) heard)
      ∙ map-map _ (to_request w) heard
      ∙ sym (map-map h.bytes stamped heard)

  handler-replies :
      (w : UdpNetwork) (qs : List EchoPacket)
      → All IsPacket qs
      → InRange w.later
      → (Udp.handle_client b
          (map (to_handler b) (deliver (map h.bytes qs) w.later) ++ Udp.idle ∷ [])).0
        ≡ map h.bytes (map stamped (deliver qs w.later))
  handler-replies w qs fits times =
      let heard = deliver qs w.later in
      ap (λ es. (Udp.handle_client b (es ++ Udp.idle ∷ [])).0)
        (delivered_bytes (to_handler b) qs w.later)
      ∙ ap (λ r. r.0)
          (handle_client-replies b h heard [] (
            timed heard (deliver-All IsPacket qs w.later fits)
              (deliver-times (λ t. t < 2 ^ 128) qs w.later times))).0
      ∙ sym (map-map h.bytes stamped heard)

  pub udp_replies-stamped :
      (local : Peer) (w : UdpNetwork) (socket : Socket) (qs : List EchoPacket)
      → (client_socket local w.peer w.system []).0 ≡ ok socket
      → All IsPacket qs
      → InRange w.early
      → InRange w.later
      → udp_replies b (fresh local) w (map h.bytes qs) ≡ map h.bytes (stamped_all w qs)
  unfolding udp_replies
  udp_replies-stamped local w socket qs made fits early later =
      rw (server-answers local w socket qs made fits early, handler-replies w qs fits later)
        (sym (
            map-append h.bytes (map stamped (deliver qs w.early))
              (map stamped (deliver qs w.later)))
          ∙ ap (map h.bytes) (sym (map-append stamped (deliver qs w.early) (deliver qs w.later))))

  stamped-IsPacket :
      (qs : List (EchoPacket × ℕ))
      → All (λ a. IsPacket a.0) qs
      → All (λ a. a.1 < 2 ^ 128) qs
      → All IsPacket (map stamped qs)
  stamped-IsPacket [] fits times = tt
  stamped-IsPacket ((q, t) ∷ qs) (fit, fits) (time, times) = (
    record {
      identifier_u16 = fit.identifier_u16;
      send_u128 = fit.send_u128;
      recv_u128 = time;
      seq_u128 = fit.seq_u128;
    },
    stamped-IsPacket qs fits times,
  )

  pub stamped_all-IsPacket :
      (w : UdpNetwork) (qs : List EchoPacket)
      → All IsPacket qs
      → InRange w.early
      → InRange w.later
      → All IsPacket (stamped_all w qs)
  stamped_all-IsPacket w qs fits early later =
      stamped-IsPacket (deliver qs w.early ++ deliver qs w.later)
        (All-append (λ a. IsPacket a.0) (deliver qs w.early) (deliver qs w.later)
          (deliver-All IsPacket qs w.early fits) (deliver-All IsPacket qs w.later fits))
        (All-append (λ a. a.1 < 2 ^ 128) (deliver qs w.early) (deliver qs w.later)
          (deliver-times (λ t. t < 2 ^ 128) qs w.early early)
          (deliver-times (λ t. t < 2 ^ 128) qs w.later later))
