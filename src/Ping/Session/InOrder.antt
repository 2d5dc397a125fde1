-- ===== src/Ping/Session/InOrder.antt =====
-- What the log of a TCP client says of the packets that were sent.
use Prim.Native.Nat.{min}
use niceperf.Prelude.{
  ℕ, zero, suc, ◌+◌, ◌^◌, ◌≤◌, ◌<◌, ◌≡◌, refl, ap, ◌∙◌, some, List, [], ◌∷◌, ◌++◌, arith, All,
  get_elem?, length, map, zip_with,
}
use niceperf.Prelude.Outcome.{ok, Yields}
use niceperf.Prelude.Words.{Profile}
use niceperf.Common.Statistics.{Float}
use niceperf.Ping.Logger.{TcpEchoResult}
use niceperf.Ping.LogTask.{LogConfig}
use niceperf.Ping.LogTask.Counts as Counts
use niceperf.Ping.LogTask.Whole.{all_written, Log, log_task-Log}
use niceperf.Ping.Task.{ended}
use niceperf.Ping.Echo.{EchoPacket, Bincode, IsPacket, IsBincode, Round}
use niceperf.Ping.Echo.Send.{numbered, good, Fits}
use niceperf.Ping.Echo.Sent.{numbered_all, IsOf, numbered_all-IsOf, numbered_all-IsPacket}
use niceperf.Ping.Tcp as Tcp
use niceperf.Ping.Tcp.Client.{measured, rows, recv_task-rows}
use niceperf.Ping.Session.{
  TcpNetwork, ServerReads, ClientReads, tcp_view, tcp_log, tcp_session, tcp_replies, to_client,
}
use niceperf.Ping.Session.Genuine.{TcpGenuine}
use niceperf.Ping.Session.OverTcp.{
  stamp_with, reply_with, Causal, tcp_send-sent, events, stamp_with-IsPacket, readable,
  tcp_replies-stamped,
}

-- `n` numbers, from `k` on.
abbrev pub count_from : ℕ → ℕ → List ℕ
count_from k zero = []
count_from k (suc n) = k ∷ count_from (k + 1) n

-- The client's clock does not go back, from `t` on.
abbrev pub Rising : ℕ → List ClientReads → Type 0
Rising t [] = Unit {0}
Rising t (c ∷ cs) = (t ≤ c.now) × Rising c.now cs

-- What a client sends: one packet in each of the rounds `ts`, in which all calls succeed.
pub record IsSending (r : Tcp.Prepared) (ts : List (ℕ × ℕ)) : Type 0 where
  pub limit : r.num_ping ≡ some (length ts)
  pub ticks : 0 < r.interval
  pub packet : IsPacket r.payload
  pub times : Fits ts
  pub few : length ts < 2 ^ 31

module _ {F : Type 0} (f : Float F) (b : Bincode) (h : IsBincode b) where
  length-numbered_all :
      (p : EchoPacket) (k : ℕ) (ts : List (ℕ × ℕ)) → length (numbered_all p k ts) ≡ length ts
  length-numbered_all p k [] = refl
  length-numbered_all p k (t ∷ ts) = ap suc (length-numbered_all p (k + 1) ts)

  -- The rows of the packets that have come through.
  abbrev come_back :
      TcpEchoResult F
      → List EchoPacket
      → List ServerReads
      → List ClientReads
      → List (TcpEchoResult F)
  come_back result qs ss cs =
      rows f result (zip_with (reply_with b h) (zip_with stamp_with qs ss) cs)

  -- The result that a packet leaves, on which the next is measured.
  abbrev next : TcpEchoResult F → EchoPacket → ServerReads → ClientReads → TcpEchoResult F
  next result q s c = measured f result (reply_with b h (stamp_with q s) c)

  seqs-come_back :
      (result : TcpEchoResult F) (p : EchoPacket) (k : ℕ) (ts : List (ℕ × ℕ))
      (ss : List ServerReads) (cs : List ClientReads)
      → map (λ (r : TcpEchoResult F). r.seq) (come_back result (numbered_all p k ts) ss cs)
        ≡ count_from k (min (length ts) (min (length ss) (length cs)))
  seqs-come_back result p k [] ss cs =
      let none_left : 0 ≡ min 0 (min (length ss) (length cs)) = omega arith in
      ap (count_from k) none_left
  seqs-come_back result p k (t ∷ ts) [] cs =
      let none_left : 0 ≡ min (suc (length ts)) (min 0 (length cs)) = omega arith in
      ap (count_from k) none_left
  seqs-come_back result p k (t ∷ ts) (s ∷ ss) [] =
      let none_left : 0 ≡ min (suc (length ts)) (min (suc (length ss)) 0) = omega arith in
      ap (count_from k) none_left
  seqs-come_back result p k ((time, n) ∷ ts) (s ∷ ss) (c ∷ cs) =
      let one_more : suc (min (length ts) (min (length ss) (length cs)))
          ≡ min (suc (length ts)) (min (suc (length ss)) (suc (length cs))) =
        omega arith in
      ap (λ l. k ∷ l) (seqs-come_back (next result (numbered p time k) s c) p (k + 1) ts ss cs)
      ∙ ap (count_from k) one_more

  come_back-Genuine :
      (result : TcpEchoResult F) (ts : List (ℕ × ℕ)) (qs : List EchoPacket) (ss : List ServerReads)
      (cs : List ClientReads)
      → All (IsOf ts 0) qs
      → Causal f b h (zip_with stamp_with qs ss) cs
      → All (TcpGenuine f ts) (come_back result qs ss cs)
  come_back-Genuine result ts [] ss cs sent causal = tt
  come_back-Genuine result ts (q ∷ qs) [] cs sent causal = tt
  come_back-Genuine result ts (q ∷ qs) (s ∷ ss) [] sent causal = tt
  come_back-Genuine result ts (q ∷ qs) (s ∷ ss) (c ∷ cs) ((i, n, number, at), sent) (le, causal) = (
    record {
      written = n;
      of_round = ap (λ k. get_elem? ts k) (omega (arith, number)) ∙ at;
      later = le;
      round_trip = refl;
    },
    come_back-Genuine (next result q s c) ts qs ss cs sent causal,
  )

  come_back-Rising :
      (result : TcpEchoResult F) (t : ℕ) (qs : List EchoPacket) (ss : List ServerReads)
      (cs : List ClientReads)
      → Rising t cs
      → Counts.Rising f tcp_view t (all_written (come_back result qs ss cs))
  come_back-Rising result t [] ss cs rising = tt
  come_back-Rising result t (q ∷ qs) [] cs rising = tt
  come_back-Rising result t (q ∷ qs) (s ∷ ss) [] rising = tt
  come_back-Rising result t (q ∷ qs) (s ∷ ss) (c ∷ cs) (le, rising) =
      (le, come_back-Rising (next result q s c) c.now qs ss cs rising)

  length-come_back :
      (result : TcpEchoResult F) (qs : List EchoPacket) (ss : List ServerReads)
      (cs : List ClientReads)
      → length (come_back result qs ss cs) ≤ length qs
  length-come_back result [] ss cs = omega arith
  length-come_back result (q ∷ qs) [] cs = omega arith
  length-come_back result (q ∷ qs) (s ∷ ss) [] = omega arith
  length-come_back result (q ∷ qs) (s ∷ ss) (c ∷ cs) =
      omega (arith, length-come_back (next result q s c) qs ss cs)

  tcp_session-rows :
      (p : Profile) (r : Tcp.Prepared) (result : TcpEchoResult F) (w : TcpNetwork)
      (ts : List (ℕ × ℕ)) (more : List Round)
      → IsSending r ts
      → All (λ s. s.system_time < 2 ^ 128) w.server
      → Causal f b h (zip_with stamp_with (numbered_all r.payload 0 ts) w.server) w.client
      → tcp_session f b p r result w (map good ts ++ more)
        ≡ (come_back result (numbered_all r.payload 0 ts) w.server w.client, ended (ok tt))
  unfolding tcp_session
  tcp_session-rows p r result w ts more sending times causal =
      let qs = numbered_all r.payload 0 ts in
      let fits =
        numbered_all-IsPacket r.payload 0 ts sending.packet sending.times
          (omega (arith, sending.few)) in
      let answers = zip_with stamp_with qs w.server in
      ap
        (λ sent.
          Tcp.recv_task f b p result
            (zip_with to_client (tcp_replies f b p w sent) w.client ++ Tcp.closed ∷ []))
        (tcp_send-sent b h r (length ts) ts more sending.limit sending.packet sending.times
          sending.ticks refl (omega (arith, sending.few)))
      ∙ ap
          (λ replies.
            Tcp.recv_task f b p result (zip_with to_client replies w.client ++ Tcp.closed ∷ []))
          (tcp_replies-stamped f b h p w qs fits times
            (omega (arith, length-numbered_all r.payload 0 ts, sending.few)))
      ∙ ap (λ es. Tcp.recv_task f b p result (es ++ Tcp.closed ∷ []))
          (events f b h answers w.client)
      ∙ recv_task-rows f b p result (zip_with (reply_with b h) answers w.client) [] (
          readable f b h answers w.client (stamp_with-IsPacket f b h qs w.server fits times) causal)

  -- However far a connection gets: the client's receive task ends without an error, its results are those
  -- of the first packets that were sent, as many as have come through both ways, in order and each once,
  -- with their send times and round trip times, and the log counts every result and has them as rows, in
  -- order, if there is a log file, and none elsewhere. The calls of the client and the server succeed, the
  -- interval is not 0, rows can be written, numbers fit their types, no packet is read before it was sent, the client's clock does
  -- not go back, and there are fewer than 2 ^ 31 packets.
  pub tcp_session-logged :
      (p : Profile) (r : Tcp.Prepared) (result : TcpEchoResult F) (w : TcpNetwork)
      (ts : List (ℕ × ℕ)) (more : List Round) (c : LogConfig)
      → IsSending r ts
      → All (λ s. s.system_time < 2 ^ 128) w.server
      → Causal f b h (zip_with stamp_with (numbered_all r.payload 0 ts) w.server) w.client
      → Rising 0 w.client
      → (results : List (TcpEchoResult F)) × (tcp_session f b p r result w (map good ts ++ more)
          ≡ (results, ended (ok tt)))
        × (map (λ (q : TcpEchoResult F). q.seq) results
            ≡ count_from 0 (min (length ts) (min (length w.server) (length w.client))))
        × All (TcpGenuine f ts) results
        × Yields (Log c results) (tcp_log f c (all_written results))
  tcp_session-logged p r result w ts more c sending times causal rising =
      let qs = numbered_all r.payload 0 ts in
      let results = come_back result qs w.server w.client in
      (
        results,
        tcp_session-rows p r result w ts more sending times causal,
        seqs-come_back result r.payload 0 ts w.server w.client,
        come_back-Genuine result ts qs w.server w.client (numbered_all-IsOf r.payload 0 ts) causal,
        (unfold tcp_log in
            log_task-Log f tcp_view c results
              (come_back-Rising result 0 qs w.server w.client rising)
              (omega (
                arith,
                length-come_back result qs w.server w.client,
                length-numbered_all r.payload 0 ts,
                sending.few,
              ))),
      )
