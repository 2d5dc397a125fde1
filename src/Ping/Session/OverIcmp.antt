-- ===== src/Ping/Session/OverIcmp.antt =====
-- From the requests that an ICMP client sends to the results of its receive task.
use niceperf.Prelude.{
  true, ℕ, ◌%◌, ◌^◌, ◌≤◌, ◌<◌, ◌≡◌, ◌≢◌, refl, ap, some, List, [], ◌∷◌, ◌++◌, Bytes, arith, All,
  length, map, take, drop, le→leb,
}
use niceperf.Prelude.Outcome.{ok}
use niceperf.Prelude.Words.{Profile}
use niceperf.Common.Statistics.{Float}
use niceperf.Ping.Logger.{PingResult}
use niceperf.Ping.Task.{gave, slice, TaskEnd, waiting}
use niceperf.Ping.Icmp as Icmp
use niceperf.Ping.Icmp.{
  Etherparse, IcmpType, echo_request, echo_reply, other, Heard, logged, passed, on_reply, on_packet,
  arrived, recv_task,
}
use niceperf.Ping.Icmp.Send.{stamped, packet}
use niceperf.Ping.Icmp.Receive.{answered, IsReply, on_packet-answered, on_reply-passed}

-- A packet that comes to the client: the answer to a request, or something else.
pub data Packet : Type 0 where
  answer : ℕ → ℕ → Packet
  stray : Bytes → Packet

-- An ICMP message that is no reply to this client.
abbrev pub IsOther : ℕ → IcmpType → Type 0
IsOther identifier (echo_reply id seq) = id ≢ identifier
IsOther identifier (echo_request id seq) = Unit {0}
IsOther identifier other = Unit {0}

module _ {F : Type 0} (f : Float F) (e : Etherparse) where
  -- The host answers a request with an echo reply that has its identifier, sequence number and payload.
  pub record IsHost (identifier : ℕ) (host : Bytes → Bytes) : Type 0 where
    pub ttl : ℕ
    pub replies :
        (seq : ℕ) (payload : Bytes)
        → seq < 2 ^ 16
        → IsReply f e
            (host (e.request_header identifier seq payload ++ payload))
            identifier
            seq
            ttl
            payload

  pub record IsStray (identifier : ℕ) (bytes : Bytes) : Type 0 where
    pub long_enough : 20 ≤ length bytes
    pub kind : IcmpType
    pub payload : Bytes
    pub parsed : e.from_slice (drop 20 (take (length bytes) bytes)) ≡ some (kind, payload)
    pub not_ours : IsOther identifier kind

  on_reply-other :
      (p : Profile) (identifier : ℕ) (result : PingResult F) (bytes payload : Bytes) (now : ℕ)
      (kind : IcmpType)
      → IsOther identifier kind
      → on_reply f e p identifier result bytes now kind payload ≡ ok passed
  on_reply-other p identifier result bytes payload now (echo_reply id seq) ne =
      (on_reply-passed f e p identifier result bytes payload now id seq ne).0
  on_reply-other p identifier result bytes payload now (echo_request id seq) u =
      unfold on_reply in refl
  on_reply-other p identifier result bytes payload now other u = unfold on_reply in refl

  on_packet-stray :
      (p : Profile) (identifier : ℕ) (result : PingResult F) (bytes : Bytes) (now : ℕ)
      → IsStray identifier bytes
      → on_packet f e p identifier result bytes (gave now) ≡ ok passed
  unfolding on_packet slice
  on_packet-stray p identifier result bytes now s =
      rw
        (
          le→leb 20 (length bytes) s.long_enough,
          le→leb (length bytes) (length bytes) (omega arith),
          s.parsed,
        )
        (on_reply-other p identifier result bytes s.payload now s.kind s.not_ours)

  module _ (identifier : ℕ) (host : Bytes → Bytes) (h : IsHost identifier host) (rest : Bytes) where
    -- Its bytes, for requests that end in `rest`.
    abbrev pub bytes_of : Packet → Bytes
    bytes_of (answer time k) = host (packet e identifier rest time k)
    bytes_of (stray bytes) = bytes

    -- What the client can read without an error: the packet with the time at which it is read.
    abbrev pub Readable : Packet × ℕ → Type 0
    Readable (answer time k, now) = (time < 2 ^ 128) × (k < 2 ^ 128) × (time ≤ now)
    Readable (stray bytes, now) = IsStray identifier bytes

    abbrev pub result_of : PingResult F → ℕ → ℕ → ℕ → PingResult F
    result_of result time k now =
        answered f result (length (bytes_of (answer time k))) h.ttl time k now

    -- The results, in order.
    abbrev pub results_of : PingResult F → List (Packet × ℕ) → List (PingResult F)
    results_of result [] = []
    results_of result ((answer time k, now) ∷ qs) =
        result_of result time k now ∷ results_of (result_of result time k now) qs
    results_of result ((stray bytes, now) ∷ qs) = results_of result qs

    abbrev pub event : Packet × ℕ → Icmp.Event
    event (q, now) = arrived (bytes_of q) (gave now) true

    -- Each answer gives a result and all else is passed over.
    pub recv_task-results :
        (p : Profile) (result : PingResult F) (qs : List (Packet × ℕ))
        → All Readable qs
        → recv_task f e p identifier result (map event qs) ≡ (results_of result qs, waiting)
    unfolding recv_task
    recv_task-results p result [] readable = refl
    recv_task-results p result ((answer time k, now) ∷ qs) ((early, few, le), readable) =
        rw
          (on_packet-answered f e p identifier result (bytes_of (answer time k)) rest time k now
            h.ttl (h.replies (k % 2 ^ 16) (stamped rest time k) (omega arith)) early few le)
          (ap (λ (r : List (PingResult F) × TaskEnd). (result_of result time k now ∷ r.0, r.1))
            (recv_task-results p (result_of result time k now) qs readable))
    recv_task-results p result ((stray bytes, now) ∷ qs) (other_one, readable) =
        rw (on_packet-stray p identifier result bytes now other_one)
          (recv_task-results p result qs readable)
