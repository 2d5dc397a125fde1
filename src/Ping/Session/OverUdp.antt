-- ===== src/Ping/Session/OverUdp.antt =====
-- From the packets that a UDP client sends to the results of its receive task, whatever the network does.
use niceperf.Prelude.{
  true, lt→ltb, ℕ, ◌^◌, ◌≤◌, ◌<◌, ◌≡◌, sym, ap, ◌∙◌, some, List, [], ◌∷◌, ◌++◌, Bytes, arith, All,
  length, map, map-map,
}
use niceperf.Prelude.Outcome.{ok}
use niceperf.Prelude.Words.{Profile}
use niceperf.Common.Sockets.{Socket}
use niceperf.Common.Statistics.{Float}
use niceperf.Ping.Logger.{UdpEchoResult}
use niceperf.Ping.Task.{gave, waiting}
use niceperf.Prelude.Network.{deliver, deliver-All}
use niceperf.Ping.Echo.{EchoPacket, Bincode, IsPacket, IsBincode, Round, send_task}
use niceperf.Ping.Echo.Send.{good, Fits}
use niceperf.Ping.Echo.Sent.{numbered_all, numbered_all-IsPacket, send_task-sent}
use niceperf.Ping.Udp as Udp
use niceperf.Ping.Udp.ClientSocket.{Peer, client_socket}
use niceperf.Ping.Udp.Client.{measured, Readable, recv_task-measured}
use niceperf.Ping.Session.{UdpNetwork, udp_send, udp_replies, udp_session}
use niceperf.Ping.Session.UdpReplies.{
  InRange, fresh, stamped_all, delivered_bytes, udp_replies-stamped, stamped_all-IsPacket,
}

-- No packet is read before it was sent.
abbrev pub Causal : List (EchoPacket × ℕ) → Type 0
Causal = All (λ a. a.0.send_timestamp ≤ a.1)

module _ (b : Bincode) (h : IsBincode b) where
  udp_send-sent :
      (r : Udp.Prepared) (num_ping : ℕ) (ts : List (ℕ × ℕ)) (more : List Round)
      → r.num_ping ≡ some num_ping
      → IsPacket r.payload
      → Fits ts
      → 0 < r.interval
      → length ts ≡ num_ping
      → num_ping < 2 ^ 64
      → (udp_send b r (map good ts ++ more)).1.sent ≡ map h.bytes (numbered_all r.payload 0 ts)
  unfolding udp_send
  udp_send-sent r num_ping ts more limit fit times ticks total few =
      rw (lt→ltb 0 r.interval ticks) (
        ap
          (λ o.
            (send_task b o (record { counter = 0; payload = r.payload; sent = [] })
              (map good ts ++ more)).1.sent)
          limit
        ∙ send_task-sent b h num_ping r.payload ts more fit times total few)

module _ {F : Type 0} (f : Float F) (b : Bincode) (h : IsBincode b) where
  abbrev with_bytes : EchoPacket × ℕ → EchoPacket × Bytes × ℕ
  with_bytes (q, t) = (q, h.bytes q, t)

  readable :
      (qs : List (EchoPacket × ℕ))
      → All (λ a. IsPacket a.0) qs
      → Causal qs
      → Readable f b (map with_bytes qs)
  readable [] fits causal = tt
  readable ((q, t) ∷ qs) (fit, fits) (le, causal) = ((h.decodes q fit, le), readable qs fits causal)

  -- What the client makes of the packets that it reads.
  abbrev pub measured_all : UdpEchoResult F → List (EchoPacket × ℕ) → List (UdpEchoResult F)
  measured_all result =
      map (λ (a : EchoPacket × ℕ). measured f result a.0 (length (h.bytes a.0)) a.1)

  pub udp_session-measured :
      (p : Profile) (r : Udp.Prepared) (result : UdpEchoResult F) (local : Peer) (w : UdpNetwork)
      (socket : Socket) (num_ping : ℕ) (ts : List (ℕ × ℕ)) (more : List Round)
      → r.num_ping ≡ some num_ping
      → IsPacket r.payload
      → Fits ts
      → 0 < r.interval
      → length ts ≡ num_ping
      → num_ping < 2 ^ 64
      → (client_socket local w.peer w.system []).0 ≡ ok socket
      → InRange w.early
      → InRange w.later
      → Causal (deliver (stamped_all b h w (numbered_all r.payload 0 ts)) w.back)
      → udp_session f b p r result (fresh local) w (map good ts ++ more) ≡ (
        measured_all result (deliver (stamped_all b h w (numbered_all r.payload 0 ts)) w.back),
        waiting,
      )
  unfolding udp_session
  udp_session-measured p r result local w socket num_ping ts more limit fit times ticks total few
        made early later causal =
      let qs = numbered_all r.payload 0 ts in
      let fits = numbered_all-IsPacket r.payload 0 ts fit times (omega (arith, total)) in
      let read = deliver (stamped_all b h w qs) w.back in
      let answers = stamped_all-IsPacket b h w qs fits early later in
      let session = λ (replies : List Bytes).
        Udp.recv_task f b p result
          (map (λ (a : Bytes × ℕ). Udp.arrived a.0 (gave a.1) true) (deliver replies w.back)) in
      ap (λ sent. session (udp_replies b (fresh local) w sent))
        (udp_send-sent b h r num_ping ts more limit fit times ticks total few)
      ∙ ap session (udp_replies-stamped b h local w socket qs made fits early later)
      ∙ ap (λ es. Udp.recv_task f b p result es)
          (delivered_bytes b h (λ (a : Bytes × ℕ). Udp.arrived a.0 (gave a.1) true)
              (stamped_all b h w qs) w.back
            ∙ sym (
                map-map (λ (a : EchoPacket × Bytes × ℕ). Udp.arrived a.1 (gave a.2) true) with_bytes
                  read))
      ∙ recv_task-measured f b p result (map with_bytes read)
          (readable read (deliver-All IsPacket (stamped_all b h w qs) w.back answers) causal)
      ∙ ap (λ results. (results, waiting)) (map-map _ with_bytes read)
