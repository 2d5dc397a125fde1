-- ===== src/Ping/Session/Logged.antt =====
-- What the log of a UDP client says of the packets that were sent.
use niceperf.Prelude.{
  ℕ, ◌^◌, ◌<◌, ◌≡◌, refl, ap, ◌∙◌, some, List, [], ◌∷◌, ◌++◌, arith, All, All-map, All-append,
  get_elem?, length, map, length-map,
}
use niceperf.Prelude.Outcome.{ok, Yields}
use niceperf.Prelude.Words.{Profile}
use niceperf.Ping.Task.{waiting}
use niceperf.Common.Sockets.{Socket}
use niceperf.Common.Statistics.{Float}
use niceperf.Ping.Logger.{UdpEchoResult}
use niceperf.Ping.LogTask.{LogConfig}
use niceperf.Ping.LogTask.Whole.{all_written, Log, log_task-Log}
use niceperf.Ping.Session.Genuine.{UdpGenuine}
use niceperf.Ping.LogTask.Counts as Counts
use niceperf.Prelude.Network.{Route, deliver, deliver-All, deliver-Rising, length-deliver}
use niceperf.Prelude.Network as Network
use niceperf.Ping.Echo.{EchoPacket, Bincode, IsPacket, IsBincode, Round}
use niceperf.Ping.Echo.Send.{good, Fits}
use niceperf.Ping.Echo.Sent.{numbered_all, IsOf, numbered_all-IsOf}
use niceperf.Ping.Udp as Udp
use niceperf.Ping.Udp.Client.{measured}
use niceperf.Ping.Udp.ClientSocket.{Peer, client_socket}
use niceperf.Ping.Session.{UdpNetwork, udp_view, udp_log, udp_session}
use niceperf.Ping.Session.OverUdp.{Causal, measured_all, udp_session-measured}
use niceperf.Ping.Session.UdpReplies.{InRange, stamped, fresh, stamped_all}

-- What a client sends: one packet in each of the rounds `ts`, in which all calls succeed.
pub record IsSending (r : Udp.Prepared) (ts : List (ℕ × ℕ)) : Type 0 where
  pub limit : r.num_ping ≡ some (length ts)
  pub ticks : 0 < r.interval
  pub packet : IsPacket r.payload
  pub times : Fits ts
  pub few : length ts < 2 ^ 64

-- What the server needs: a socket for its client, and a clock that fits.
pub record IsServing (local : Peer) (w : UdpNetwork) : Type 0 where
  pub socket : Socket
  pub made : (client_socket local w.peer w.system []).0 ≡ ok socket
  pub early : InRange w.early
  pub later : InRange w.later

module _ {F : Type 0} (f : Float F) (b : Bincode) (h : IsBincode b) where
  -- The packets that the client reads, with the times.
  abbrev pub read_packets : Udp.Prepared → UdpNetwork → List (ℕ × ℕ) → List (EchoPacket × ℕ)
  read_packets r w ts = deliver (stamped_all b h w (numbered_all r.payload 0 ts)) w.back

  read-IsOf :
      (r : Udp.Prepared) (w : UdpNetwork) (ts : List (ℕ × ℕ))
      → All (λ a. IsOf ts 0 a.0) (read_packets r w ts)
  read-IsOf r w ts =
      let qs = numbered_all r.payload 0 ts in
      let sent = numbered_all-IsOf r.payload 0 ts in
      deliver-All (IsOf ts 0) (stamped_all b h w qs) w.back (
        All-map (IsOf ts 0) stamped (deliver qs w.early ++ deliver qs w.later) (
          All-append (λ a. IsOf ts 0 a.0) (deliver qs w.early) (deliver qs w.later)
            (deliver-All (IsOf ts 0) qs w.early sent) (deliver-All (IsOf ts 0) qs w.later sent)))

  measured_all-Genuine :
      (result : UdpEchoResult F) (ts : List (ℕ × ℕ)) (qs : List (EchoPacket × ℕ))
      → All (λ a. IsOf ts 0 a.0) qs
      → Causal qs
      → All (UdpGenuine f ts) (measured_all f b h result qs)
  measured_all-Genuine result ts [] sent causal = tt
  measured_all-Genuine result ts ((q, t) ∷ qs) ((i, n, number, at), sent) (le, causal) = (
    record {
      written = n;
      of_round = ap (λ k. get_elem? ts k) (omega (arith, number)) ∙ at;
      later = le;
      round_trip = refl;
    },
    measured_all-Genuine result ts qs sent causal,
  )

  measured_all-Rising :
      (result : UdpEchoResult F) (t : ℕ) (qs : List (EchoPacket × ℕ))
      → Network.Rising t qs
      → Counts.Rising f udp_view t (all_written (measured_all f b h result qs))
  measured_all-Rising result t [] rising = tt
  measured_all-Rising result t (q ∷ qs) (le, rising) =
      (le, measured_all-Rising result q.1 qs rising)

  -- Whatever the network loses, repeats or brings out of order in either direction, and whichever of the
  -- server's sockets a packet comes to: the client's receive task waits on, each of its results is that of
  -- a packet that was sent, with its number, its send time and its round trip time, and the log counts
  -- every result and has them as rows, in order, if there is a log file, and none elsewhere. The calls of
  -- the client and the server succeed, the interval is not 0, rows can be written, numbers fit their types, no packet is read
  -- before it was sent, the client's clock does not go back, and fewer than 2 ^ 64 packets are sent and
  -- come back.
  pub udp_session-logged :
      (p : Profile) (r : Udp.Prepared) (result : UdpEchoResult F) (local : Peer) (w : UdpNetwork)
      (ts : List (ℕ × ℕ)) (more : List Round) (c : LogConfig)
      → IsSending r ts
      → IsServing local w
      → Causal (read_packets r w ts)
      → Network.Rising 0 w.back
      → length w.back < 2 ^ 64
      → (results : List (UdpEchoResult F)) × (udp_session f b p r result
            (fresh local)
            w
            (map good ts ++ more)
          ≡ (results, waiting))
        × All (UdpGenuine f ts) results
        × Yields (Log c results) (udp_log f c (all_written results))
  udp_session-logged p r result local w ts more c sending serving causal rising few =
      let read = read_packets r w ts in
      let results = measured_all f b h result read in
      (
        results,
        udp_session-measured f b h p r result local w serving.socket (length ts) ts more
            sending.limit sending.packet sending.times sending.ticks refl sending.few serving.made
            serving.early serving.later causal,
        measured_all-Genuine result ts read (read-IsOf r w ts) causal,
        (unfold udp_log in
            log_task-Log f udp_view c results
              (measured_all-Rising result 0 read
                (deliver-Rising (stamped_all b h w (numbered_all r.payload 0 ts)) 0 w.back rising))
              (omega (
                arith,
                length-map
                    (λ (a : EchoPacket × ℕ). measured f result a.0 (length (h.bytes a.0)) a.1) read,
                length-deliver (stamped_all b h w (numbered_all r.payload 0 ts)) w.back,
              ))),
      )
