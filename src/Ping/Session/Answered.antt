-- ===== src/Ping/Session/Answered.antt =====
-- What the log of an ICMP client says of the requests that were sent.
use niceperf.Prelude.{
  true, lt→ltb, ℕ, ◌%◌, ◌^◌, ◌≤◌, ◌<◌, ◌≡◌, refl, ap, ◌∙◌, some, List, [], ◌∷◌, ◌++◌, Bytes, arith,
  All, get_elem?, length, map, drop,
}
use niceperf.Prelude.Network.{deliver, deliver-All, length-deliver}
use niceperf.Prelude.Outcome.{Yields}
use niceperf.Prelude.Words.{Profile}
use niceperf.Common.Statistics.{Float}
use niceperf.Ping.Logger.{PingResult}
use niceperf.Ping.LogTask.{LogConfig}
use niceperf.Ping.LogTask.Counts as Counts
use niceperf.Ping.LogTask.Whole.{all_written, Log, log_task-Log}
use niceperf.Ping.Task.{gave, waiting}
use niceperf.Ping.Echo.Send.{Fits}
use niceperf.Ping.Icmp as Icmp
use niceperf.Ping.Icmp.{Etherparse, Round}
use niceperf.Ping.Icmp.Send.{packets, good, send_task-Finished}
use niceperf.Ping.Session.{IcmpNetwork, icmp_view, icmp_log, icmp_send, icmp_session}
use niceperf.Ping.Session.Genuine.{Genuine}
use niceperf.Ping.Session.OverIcmp.{
  Packet, answer, stray, IsHost, IsStray, results_of, recv_task-results, result_of,
}
use niceperf.Ping.Session.Answers.{
  pool, Causal, IsOf, pool-IsOf, pool-Readable, pool-bytes, pool-events,
}

-- What a client sends: one request in each of the rounds `ts`, in which all calls succeed, from a payload
-- with room for the two stamps.
pub record IsSending (r : Icmp.Prepared) (ts : List (ℕ × ℕ)) : Type 0 where
  pub limit : r.num_ping ≡ some (length ts)
  pub ticks : 0 < r.interval
  pub room : 32 ≤ length r.payload
  pub times : Fits ts
  pub few : length ts < 2 ^ 64

module _ {F : Type 0} (f : Float F) where
  -- The result is that of the answer to the request with the count `k`, read at the time `now`: its count
  -- is that of a round, with the send time of that round and the round trip time between the two; its
  -- sequence number is the count modulo 2 ^ 16.
  pub record Answered (ts : List (ℕ × ℕ)) (k now : ℕ) (r : PingResult F) : Type 0 where
    pub genuine : Genuine f ts r.unique_seq r.send_timestamp now r.rtt
    pub counted : r.unique_seq ≡ k
    pub wrapped : r.seq ≡ k % 2 ^ 16

  -- One result for each answer that comes, in order, and none for other packets.
  abbrev pub Results : List (ℕ × ℕ) → List (Packet × ℕ) → List (PingResult F) → Type 0
  Results ts [] [] = Unit {0}
  Results ts [] (r ∷ rs) = ⊥
  Results ts ((answer time k, now) ∷ qs) [] = ⊥
  Results ts ((answer time k, now) ∷ qs) (r ∷ rs) = Answered ts k now r × Results ts qs rs
  Results ts ((stray bytes, now) ∷ qs) rs = Results ts qs rs

module _ {F : Type 0} (f : Float F) (e : Etherparse) (identifier : ℕ) where
  module _ (host : Bytes → Bytes) (h : IsHost f e identifier host) (rest : Bytes) where
    results_of-Results :
        (result : PingResult F) (ts : List (ℕ × ℕ)) (qs : List (Packet × ℕ))
        → All (λ a. IsOf f e identifier ts 0 a.0) qs
        → Causal qs
        → Results f ts qs (results_of f e identifier host h rest result qs)
    results_of-Results result ts [] sent causal = tt
    results_of-Results result ts ((answer time k, now) ∷ qs) ((early, (i, n, number, lt, at)), sent)
          (le, causal) =
        (
          record {
            genuine = record {
              written = n;
              of_round = ap (λ j. get_elem? ts j) (omega (arith, number)) ∙ at;
              later = le;
              round_trip = refl;
            };
            counted = refl;
            wrapped = refl;
          },
          results_of-Results (result_of f e identifier host h rest result time k now) ts qs sent
              causal,
        )
    results_of-Results result ts ((stray bytes, now) ∷ qs) (s, sent) causal =
        results_of-Results result ts qs sent causal

    -- The times of the results do not go back: they are all that of the first result.
    results_of-Rising :
        (result : PingResult F) (t : ℕ) (qs : List (Packet × ℕ))
        → t ≤ result.recv_timestamp
        → Counts.Rising f icmp_view t
            (all_written (results_of f e identifier host h rest result qs))
    results_of-Rising result t [] le = tt
    results_of-Rising result t ((answer time k, now) ∷ qs) le = (
      le,
      results_of-Rising (result_of f e identifier host h rest result time k now)
          result.recv_timestamp qs (omega arith),
    )
    results_of-Rising result t ((stray bytes, now) ∷ qs) le = results_of-Rising result t qs le

    length-results_of :
        (result : PingResult F) (qs : List (Packet × ℕ))
        → length (results_of f e identifier host h rest result qs) ≤ length qs
    length-results_of result [] = omega arith
    length-results_of result ((answer time k, now) ∷ qs) =
        omega (arith, length-results_of (result_of f e identifier host h rest result time k now) qs)
    length-results_of result ((stray bytes, now) ∷ qs) = omega (arith, length-results_of result qs)

module _ (e : Etherparse) where
  icmp_send-sent :
      (r : Icmp.Prepared) (ts : List (ℕ × ℕ)) (more : List Round)
      → IsSending r ts
      → (icmp_send e r (map (good e) ts ++ more)).1.sent
        ≡ packets e r.identifier (drop 32 r.payload) 0 ts
  unfolding icmp_send
  icmp_send-sent r ts more sending =
      let start : Icmp.SendState = record { counter = 0; payload = r.payload; sent = [] } in
      rw (lt→ltb 0 r.interval sending.ticks) (
        ap (λ o. (Icmp.send_task e o r.identifier start (map (good e) ts ++ more)).1.sent)
          sending.limit
        ∙ (send_task-Finished e r.identifier (length ts) start ts more sending.room (omega arith)
            sending.few).in_order)

module _ {F : Type 0} (f : Float F) (e : Etherparse) where
  -- Whatever the network loses, repeats or brings out of order, and whatever packets of others come in
  -- between, replies to other clients and messages that are no replies: the client's receive task waits
  -- on, it has one result for each answer that comes, in order, with the count and the send time of the
  -- request and the time from then until the answer is read, and the log counts every result and has them
  -- as rows, in order, if there is a log file, and none elsewhere. The host answers each request with its
  -- echo reply, the payload has room for the two stamps, the interval is not 0, the client's calls
  -- succeed, rows can be written, times fit their type, no answer is read before its request was sent,
  -- and fewer than 2 ^ 64 packets are sent and come.
  pub icmp_session-logged :
      (p : Profile) (r : Icmp.Prepared) (result : PingResult F) (w : IcmpNetwork)
      (ts : List (ℕ × ℕ)) (more : List Round) (c : LogConfig)
      → IsSending r ts
      → IsHost f e r.identifier w.host
      → All (IsStray f e r.identifier) w.strays
      → Causal (deliver (pool w ts) w.back)
      → length w.back < 2 ^ 64
      → (results : List (PingResult F)) × (icmp_session f e p r result w (map (good e) ts ++ more)
          ≡ (results, waiting))
        × Results f ts (deliver (pool w ts) w.back) results
        × Yields (Log c results) (icmp_log f c (all_written results))
  unfolding icmp_session
  icmp_session-logged p r result w ts more c sending h strays causal few =
      let rest = drop 32 r.payload in
      let come = deliver (pool w ts) w.back in
      let results = results_of f e r.identifier w.host h rest result come in
      let ours =
        deliver-All (IsOf f e r.identifier ts 0) (pool w ts) w.back
          (pool-IsOf f e r.identifier w ts sending.times strays) in
      let receive = λ (l : List Bytes).
        Icmp.recv_task f e p r.identifier result
          (map (λ (a : Bytes × ℕ). Icmp.arrived a.0 (gave a.1) true) (deliver l w.back)) in
      (
        results,
        ap (λ sent. receive (map w.host sent ++ w.strays)) (icmp_send-sent e r ts more sending)
            ∙ ap receive (pool-bytes f e r.identifier w.host h rest w ts)
            ∙ ap (Icmp.recv_task f e p r.identifier result)
                (pool-events f e r.identifier w.host h rest w ts)
            ∙ recv_task-results f e r.identifier w.host h rest p result come
                (pool-Readable f e r.identifier w.host h rest ts come sending.few ours causal),
        results_of-Results f e r.identifier w.host h rest result ts come ours causal,
        (unfold icmp_log in
            log_task-Log f icmp_view c results
              (results_of-Rising f e r.identifier w.host h rest result 0 come (omega arith))
              (omega (
                arith,
                few,
                length-results_of f e r.identifier w.host h rest result come,
                length-deliver (pool w ts) w.back,
              ))),
      )
