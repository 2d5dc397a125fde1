-- ===== src/Ping/Tcp/Server.antt =====
-- What a handler of the TCP server answers and measures.
use niceperf.Prelude.{
  ℕ, ◌+◌, ◌-◌, ◌/◌, ◌^◌, ◌<◌, ◌≡◌, refl, ap, sym, ◌∙◌, Bool, true, false, List, [], ◌∷◌, ◌++◌,
  Bytes, arith, length, map, append-nil, append_assoc, ◌==◌, if◌then◌else◌, Bool-cases, inl, inr,
}
use niceperf.Prelude.Outcome.{ok}
use niceperf.Prelude.Words.{Profile, debug, release}
use niceperf.Common.Statistics.{Float, Statistics}
use niceperf.Common.Statistics as Stats
use niceperf.Ping.Task.{gave, ended}
use niceperf.Ping.Echo.{EchoPacket, Bincode, IsPacket, IsBincode}
use niceperf.Ping.Tcp.{
  Frame, FrameEvent, frame, disconnected, Handler, timed, answer, count_up, hundredth,
  on_client_frame, client_handler,
}

-- A packet that a client sends: when it comes, by the two instants that are read, and the system's time.
pub record Ask : Type 0 where
  pub packet : EchoPacket
  pub elapsed_at : ℕ
  pub now : ℕ
  pub system_time : ℕ

module _ {F : Type 0} (f : Float F) (b : Bincode) (h : IsBincode b) where
  abbrev pub ask : Ask → FrameEvent
  ask a = frame (record {
    bytes = h.bytes a.packet;
    elapsed_at = a.elapsed_at;
    now = a.now;
    clock = gave a.system_time;
    send = gave (length (h.bytes a.packet));
  })

  abbrev pub reply : Ask → Bytes
  reply a = h.bytes (record a.packet { recv_timestamp = a.system_time })

  abbrev pub Fits : List Ask → Type 0
  Fits [] = Unit {0}
  Fits (a ∷ rest) = (IsPacket a.packet × (a.system_time < 2 ^ 128)) × Fits rest

  -- The milliseconds between the packets: from the first, or since the time `t`.
  abbrev pub gaps : Bool → ℕ → List Ask → List F
  gaps first t [] = []
  gaps true t (a ∷ rest) = gaps false a.now rest
  gaps false t (a ∷ rest) = f.of_ℕ ((a.elapsed_at - t) / 1000000) ∷ gaps false a.now rest

  abbrev of_ask : Ask → Frame
  of_ask a = record {
    bytes = h.bytes a.packet;
    elapsed_at = a.elapsed_at;
    now = a.now;
    clock = gave a.system_time;
    send = gave (length (h.bytes a.packet));
  }

  answer-reply :
      (a : Ask) → IsPacket a.packet → a.system_time < 2 ^ 128 → answer f b (of_ask a) ≡ ok (reply a)
  unfolding answer
  answer-reply a fits time = rw (
    h.decodes a.packet fits,
    h.encodes (record a.packet { recv_timestamp = a.system_time })
        (record {
          identifier_u16 = fits.identifier_u16;
          send_u128 = fits.send_u128;
          recv_u128 = time;
          seq_u128 = fits.seq_u128;
        }),
  )

  count_up_lem : (p : Profile) (n : ℕ) → n + 1 < 2 ^ 31 → count_up p n ≡ ok (n + 1)
  unfolding count_up
  count_up_lem debug n lt = ground arith
  count_up_lem release n lt = ap ok (omega arith)

  -- What a round leaves.
  record Answered (s s' : Handler F) (a : Ask) : Type 0 where
    counted : s'.recv_counter ≡ s.recv_counter + 1
    at : s'.time ≡ a.now
    replied : s'.replies ≡ s.replies ++ reply a ∷ []
    measured : s'.stats ≡ Stats.updates f s.stats (gaps (s.recv_counter == 0) s.time (a ∷ []))

  timed_lem :
      (s : Handler F) (a : Ask)
      → ((timed f b s (of_ask a)).time ≡ a.now)
        × ((timed f b s (of_ask a)).stats
            ≡ Stats.updates f s.stats (gaps (s.recv_counter == 0) s.time (a ∷ [])))
        × ((timed f b s (of_ask a)).recv_counter ≡ s.recv_counter)
        × ((timed f b s (of_ask a)).replies ≡ s.replies)
  unfolding Stats.updates
  timed_lem s a = elim (Bool-cases (s.recv_counter == 0)) [
    | inl first ↦ rw first (refl, refl, refl, refl)
    | inr later ↦ rw later (refl, refl, refl, refl)
  ]

  abbrev round : Handler F → Ask → Handler F
  round s a =
      let s' = timed f b s (of_ask a) in
      record s' {
        recv_counter = s.recv_counter + 1;
        replies = s'.replies ++ reply a ∷ [];
        printed = if hundredth s'.recv_counter then s'.printed ++ s'.stats ∷ [] else s'.printed;
      }

  round-Answered : (s : Handler F) (a : Ask) → Answered s (round s a) a
  round-Answered s a =
      let (at, stats, counter, replies) = timed_lem s a in
      record {
        counted = refl;
        at = at;
        replied = ap (λ rs. rs ++ reply a ∷ []) replies;
        measured = stats;
      }

  on_client_frame_lem :
      (p : Profile) (s : Handler F) (a : Ask)
      → IsPacket a.packet
      → a.system_time < 2 ^ 128
      → s.recv_counter + 1 < 2 ^ 31
      → on_client_frame f b p s (of_ask a) ≡ (round s a, ok tt)
  unfolding on_client_frame
  on_client_frame_lem p s a fits time lt =
      let (at, stats, counter, replies) = timed_lem s a in
      rw (answer-reply a fits time, counter, count_up_lem p s.recv_counter lt)

  -- What a series of packets leaves.
  pub record Served (s s' : Handler F) (asks : List Ask) : Type 0 where
    pub counted : s'.recv_counter ≡ s.recv_counter + length asks
    pub replied : s'.replies ≡ s.replies ++ map reply asks
    pub measured : s'.stats ≡ Stats.updates f s.stats (gaps (s.recv_counter == 0) s.time asks)

  abbrev pub rounds : Handler F → List Ask → Handler F
  rounds s [] = s
  rounds s (a ∷ rest) = rounds (round s a) rest

  gaps-cons :
      (first : Bool) (t : ℕ) (stats : Statistics F) (a : Ask) (rest : List Ask)
      → Stats.updates f (Stats.updates f stats (gaps first t (a ∷ []))) (gaps false a.now rest)
        ≡ Stats.updates f stats (gaps first t (a ∷ rest))
  unfolding Stats.updates
  gaps-cons true t stats a rest = refl
  gaps-cons false t stats a rest = refl

  counted_once : (n : ℕ) → ((n + 1) == 0) ≡ false
  counted_once n = ground arith

  pub rounds-Served : (s : Handler F) (asks : List Ask) → Served s (rounds s asks) asks
  rounds-Served s [] = record {
    counted = omega arith;
    replied = sym (append-nil s.replies);
    measured = unfold Stats.updates in refl;
  }
  rounds-Served s (a ∷ rest) =
      let one = round-Answered s a in
      let more = rounds-Served (round s a) rest in
      record {
        counted = more.counted ∙ omega arith;
        replied =
            more.replied ∙ rw (one.replied, append_assoc s.replies (reply a ∷ []) (map reply rest));
        measured =
            more.measured
            ∙ rw (one.at, one.measured, counted_once s.recv_counter)
                (gaps-cons (s.recv_counter == 0) s.time s.stats a rest);
      }

  client_handler_step :
      (p : Profile) (s : Handler F) (a : Ask) (events : List FrameEvent)
      → IsPacket a.packet
      → a.system_time < 2 ^ 128
      → s.recv_counter + 1 < 2 ^ 31
      → client_handler f b p s (ask a ∷ events) ≡ client_handler f b p (round s a) events
  unfolding client_handler
  client_handler_step p s a events fits time lt = rw (on_client_frame_lem p s a fits time lt)

  pub client_handler-rounds :
      (p : Profile) (s : Handler F) (asks : List Ask) (events : List FrameEvent)
      → Fits asks
      → s.recv_counter + length asks < 2 ^ 31
      → client_handler f b p s (map ask asks ++ events)
        ≡ client_handler f b p (rounds s asks) events
  client_handler-rounds p s [] events fits lt = refl
  client_handler-rounds p s (a ∷ rest) events ((packet, time), fits) lt =
      client_handler_step p s a (map ask rest ++ events) packet time (omega arith)
      ∙ client_handler-rounds p (round s a) rest events fits (omega arith)

  -- Where the packets and times fit their types and `send` works, a handler answers every packet of its
  -- client in order with the server's time in it, counts them, and keeps the statistics of the
  -- milliseconds between them; it ends without an error once the client disconnects. There must be fewer
  -- than 2 ^ 31 packets.
  pub client_handler-Served :
      (p : Profile) (s : Handler F) (asks : List Ask) (more : List FrameEvent)
      → Fits asks
      → s.recv_counter + length asks < 2 ^ 31
      → Served s (client_handler f b p s (map ask asks ++ disconnected ∷ more)).0 asks
        × ((client_handler f b p s (map ask asks ++ disconnected ∷ more)).1 ≡ ended (ok tt))
  client_handler-Served p s asks more fits lt =
      rw (client_handler-rounds p s asks (disconnected ∷ more) fits lt)
        (unfold client_handler in (rounds-Served s asks, refl))
