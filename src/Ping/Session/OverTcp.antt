-- ===== src/Ping/Session/OverTcp.antt =====
-- From the packets that a TCP client sends to the rows of its log.
use niceperf.Prelude.{
  lt→ltb, ℕ, ◌^◌, ◌≤◌, ◌<◌, ◌≡◌, refl, ap, ◌∙◌, some, List, [], ◌∷◌, ◌++◌, arith, All, length, map,
  zip_with,
}
use niceperf.Prelude.Words.{Profile}
use niceperf.Common.Statistics.{Float}
use niceperf.Ping.Echo.{EchoPacket, Bincode, IsPacket, IsBincode, Round, send_task}
use niceperf.Ping.Echo.Send.{good, Fits}
use niceperf.Ping.Echo.Sent.{numbered_all, send_task-sent}
use niceperf.Ping.Tcp as Tcp
use niceperf.Ping.Tcp.Client.{Reply, arrival, Readable}
use niceperf.Ping.Tcp.Server.{Ask, ask, reply, client_handler-Served}
use niceperf.Ping.Tcp.Server as Server
use niceperf.Ping.Session.{
  TcpNetwork, ServerReads, ClientReads, to_frame, to_client, tcp_send, tcp_replies,
}

abbrev pub stamp_with : EchoPacket → ServerReads → EchoPacket
stamp_with q c = record q { recv_timestamp = c.system_time }

abbrev pub ask_with : EchoPacket → ServerReads → Ask
ask_with q c = record {
  packet = q;
  elapsed_at = c.elapsed_at;
  now = c.now;
  system_time = c.system_time;
}

module _ (b : Bincode) (h : IsBincode b) where
  abbrev pub reply_with : EchoPacket → ClientReads → Reply
  reply_with q c = record { packet = q; bytes = h.bytes q; now = c.now; retrans = c.retrans }

  pub tcp_send-sent :
      (r : Tcp.Prepared) (num_ping : ℕ) (ts : List (ℕ × ℕ)) (more : List Round)
      → r.num_ping ≡ some num_ping
      → IsPacket r.payload
      → Fits ts
      → 0 < r.interval
      → length ts ≡ num_ping
      → num_ping < 2 ^ 64
      → (tcp_send b r (map good ts ++ more)).1.sent ≡ map h.bytes (numbered_all r.payload 0 ts)
  unfolding tcp_send
  tcp_send-sent r num_ping ts more limit fit times ticks total few =
      rw (lt→ltb 0 r.interval ticks) (
        ap
          (λ o.
            (send_task b o (record { counter = 0; payload = r.payload; sent = [] })
              (map good ts ++ more)).1.sent)
          limit
        ∙ send_task-sent b h num_ping r.payload ts more fit times total few)

module _ {F : Type 0} (f : Float F) (b : Bincode) (h : IsBincode b) where
  frames :
      (qs : List EchoPacket) (cs : List ServerReads)
      → zip_with to_frame (map h.bytes qs) cs ≡ map (ask f b h) (zip_with ask_with qs cs)
  frames [] cs = refl
  frames (q ∷ qs) [] = refl
  frames (q ∷ qs) (c ∷ cs) = ap (λ l. to_frame (h.bytes q) c ∷ l) (frames qs cs)

  replies :
      (qs : List EchoPacket) (cs : List ServerReads)
      → map (reply f b h) (zip_with ask_with qs cs) ≡ map h.bytes (zip_with stamp_with qs cs)
  replies [] cs = refl
  replies (q ∷ qs) [] = refl
  replies (q ∷ qs) (c ∷ cs) = ap (λ l. h.bytes (stamp_with q c) ∷ l) (replies qs cs)

  pub events :
      (qs : List EchoPacket) (cs : List ClientReads)
      → zip_with to_client (map h.bytes qs) cs ≡ map (arrival f) (zip_with (reply_with b h) qs cs)
  events [] cs = refl
  events (q ∷ qs) [] = refl
  events (q ∷ qs) (c ∷ cs) = ap (λ l. to_client (h.bytes q) c ∷ l) (events qs cs)

  asks-Fits :
      (qs : List EchoPacket) (cs : List ServerReads)
      → All IsPacket qs
      → All (λ c. c.system_time < 2 ^ 128) cs
      → Server.Fits f b h (zip_with ask_with qs cs)
  asks-Fits [] cs fits times = tt
  asks-Fits (q ∷ qs) [] fits times = tt
  asks-Fits (q ∷ qs) (c ∷ cs) (fit, fits) (time, times) = ((fit, time), asks-Fits qs cs fits times)

  pub stamp_with-IsPacket :
      (qs : List EchoPacket) (cs : List ServerReads)
      → All IsPacket qs
      → All (λ c. c.system_time < 2 ^ 128) cs
      → All IsPacket (zip_with stamp_with qs cs)
  stamp_with-IsPacket [] cs fits times = tt
  stamp_with-IsPacket (q ∷ qs) [] fits times = tt
  stamp_with-IsPacket (q ∷ qs) (c ∷ cs) (fit, fits) (time, times) = (
    record {
      identifier_u16 = fit.identifier_u16;
      send_u128 = fit.send_u128;
      recv_u128 = time;
      seq_u128 = fit.seq_u128;
    },
    stamp_with-IsPacket qs cs fits times,
  )

  -- The clock of the client does not go back between a packet's sending and its reading.
  abbrev pub Causal : List EchoPacket → List ClientReads → Type 0
  Causal [] cs = Unit {0}
  Causal (q ∷ qs) [] = Unit {0}
  Causal (q ∷ qs) (c ∷ cs) = (q.send_timestamp ≤ c.now) × Causal qs cs

  pub readable :
      (qs : List EchoPacket) (cs : List ClientReads)
      → All IsPacket qs
      → Causal qs cs
      → Readable f b (zip_with (reply_with b h) qs cs)
  readable [] cs fits causal = tt
  readable (q ∷ qs) [] fits causal = tt
  readable (q ∷ qs) (c ∷ cs) (fit, fits) (le, causal) =
      ((h.decodes q fit, le), readable qs cs fits causal)

  length-asks :
      (qs : List EchoPacket) (cs : List ServerReads) → length (zip_with ask_with qs cs) ≤ length qs
  length-asks [] cs = omega arith
  length-asks (q ∷ qs) [] = omega arith
  length-asks (q ∷ qs) (c ∷ cs) = omega (arith, length-asks qs cs)

  pub tcp_replies-stamped :
      (p : Profile) (w : TcpNetwork) (qs : List EchoPacket)
      → All IsPacket qs
      → All (λ c. c.system_time < 2 ^ 128) w.server
      → length qs < 2 ^ 31
      → tcp_replies f b p w (map h.bytes qs) ≡ map h.bytes (zip_with stamp_with qs w.server)
  unfolding tcp_replies
  tcp_replies-stamped p w qs fits times few =
      let asks = zip_with ask_with qs w.server in
      ap (λ es. (Tcp.client_handler f b p (Tcp.fresh f b) (es ++ Tcp.disconnected ∷ [])).0.replies)
        (frames qs w.server)
      ∙ (client_handler-Served f b h p (Tcp.fresh f b) asks [] (asks-Fits qs w.server fits times)
          (omega (arith, length-asks qs w.server))).0.replied
      ∙ replies qs w.server
