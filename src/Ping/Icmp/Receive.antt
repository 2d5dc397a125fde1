-- ===== src/Ping/Icmp/Receive.antt =====
-- What the ICMP receive task makes of packets.
use Prim.Native.String.{String}
use niceperf.Prelude.{
  Bool, true, false, ℕ, ◌-◌, ◌%◌, ◌^◌, ◌≤◌, ◌<◌, ◌≡◌, ◌≢◌, refl, ◌∙◌, some, List, [], ◌∷◌, ◌++◌,
  Bytes, arith, length, take, drop, length-append, take-append, drop-append, le→leb, ==_refl,
  append_assoc, All, Bool-cases, inl, inr, ◌==◌,
}
use niceperf.Prelude.Outcome.{Outcome, ok, err, panic, ok_or, OnOk, OnOk-bind}
use niceperf.Prelude.Words.{
  Profile, sub_word, to_be_bytes, from_be_bytes, length-to_be_bytes, from_be_bytes-to_be_bytes,
}
use niceperf.Common.Statistics.{Float}
use niceperf.Ping.Logger.{PingResult}
use niceperf.Ping.Task.{Error, Sys, gave, call, clock_failed, bad_header, TaskEnd, slice, byte_at}
use niceperf.Ping.Icmp.{
  Etherparse, IcmpType, echo_request, echo_reply, other, Heard, logged, passed, read_reply,
  on_reply, on_packet, Event, arrived, read_failed, after_packet, recv_task, no_result,
}
use niceperf.Ping.Icmp.Send.{stamped}

slice_front : (a rest : Bytes) → length a ≡ 16 → slice (a ++ rest) 0 16 ≡ ok a
unfolding slice
slice_front a rest h =
    rw (
      le→leb 16 (length (a ++ rest)) (omega (arith, length-append a rest)),
      take-append 16 a rest h,
    )

slice_second :
    (a b rest : Bytes) → length a ≡ 16 → length b ≡ 16 → slice (a ++ (b ++ rest)) 16 32 ≡ ok b
unfolding slice
slice_second a b rest h k = rw (
  le→leb 32 (length (a ++ (b ++ rest)))
      (omega (arith, length-append a (b ++ rest), length-append b rest)),
  ← append_assoc a b rest,
  take-append 32 (a ++ b) rest (omega (arith, length-append a b)),
  drop-append 16 a b h,
)

-- The fields of `PingResult` that a reply to the packet with the count `k`, sent at `time`, fills in.
abbrev pub answered : {F : Type 0} → Float F → PingResult F → ℕ → ℕ → ℕ → ℕ → ℕ → PingResult F
answered f result size ttl time k now = record result {
  seq = k % 2 ^ 16;
  unique_seq = k;
  ttl = ttl;
  rtt = f.div (f.of_ℕ (now - time)) (f.of_ℕ 1000000);
  size = size;
  send_timestamp = time;
}

module _ {F : Type 0} (f : Float F) (e : Etherparse) where
  read_reply-stamped :
      (p : Profile) (result : PingResult F) (packet rest : Bytes) (time k now ttl : ℕ)
      → time < 2 ^ 128
      → k < 2 ^ 128
      → time ≤ now
      → byte_at packet 8 ≡ ok ttl
      → read_reply f e p result packet now (k % 2 ^ 16) (stamped rest time k)
        ≡ ok (logged (answered f result (length packet) ttl time k now))
  unfolding read_reply sub_word
  read_reply-stamped p result packet rest time k now ttl ht hk le at = rw (
    slice_front (to_be_bytes 16 time) (to_be_bytes 16 k ++ rest) (length-to_be_bytes 16 time),
    from_be_bytes-to_be_bytes 16 time (omega arith),
    le→leb time now le,
    at,
    slice_second (to_be_bytes 16 time) (to_be_bytes 16 k) rest (length-to_be_bytes 16 time)
        (length-to_be_bytes 16 k),
    from_be_bytes-to_be_bytes 16 k (omega arith),
  )

  -- What the network does: the IPv4 header of twenty bytes, then an ICMP message that is read as the
  -- echo reply with this identifier, sequence number and payload.
  pub record IsReply (packet : Bytes) (id seq ttl : ℕ) (payload : Bytes) : Type 0 where
    pub long_enough : 20 ≤ length packet
    pub ttl_byte : byte_at packet 8 ≡ ok ttl
    pub parsed :
        e.from_slice (drop 20 (take (length packet) packet)) ≡ some (echo_reply id seq, payload)

  -- The reply that echoes the packet with the count `k` sent at `time` is logged with that count, whole
  -- and modulo 2 ^ 16, with that time, and with the milliseconds since then as its round trip time.
  -- Count and time are below 2 ^ 128, and the clock must not have gone back.
  pub on_packet-answered :
      (p : Profile) (identifier : ℕ) (result : PingResult F) (packet rest : Bytes)
      (time k now ttl : ℕ)
      → IsReply packet identifier (k % 2 ^ 16) ttl (stamped rest time k)
      → time < 2 ^ 128
      → k < 2 ^ 128
      → time ≤ now
      → on_packet f e p identifier result packet (gave now)
        ≡ ok (logged (answered f result (length packet) ttl time k now))
  unfolding on_packet on_reply slice
  on_packet-answered p identifier result packet rest time k now ttl r ht hk le =
      rw
        (
          le→leb 20 (length packet) r.long_enough,
          le→leb (length packet) (length packet) (omega arith),
          r.parsed,
          ==_refl identifier,
        )
        (read_reply-stamped p result packet rest time k now ttl ht hk le r.ttl_byte)

  -- A reply to another client, and a message that is no echo reply, are passed over.
  pub on_reply-passed :
      (p : Profile) (identifier : ℕ) (result : PingResult F) (packet payload : Bytes)
      (now id seq : ℕ)
      → id ≢ identifier
      → (on_reply f e p identifier result packet now (echo_reply id seq) payload ≡ ok passed)
        × (on_reply f e p identifier result packet now (echo_request id seq) payload ≡ ok passed)
        × (on_reply f e p identifier result packet now other payload ≡ ok passed)
  unfolding on_reply
  on_reply-passed p identifier result packet payload now id seq ne = (ground arith, refl, refl)

  -- What a packet never changes of the result.
  Unset : PingResult F → Heard F → Type 0
  Unset result (logged r) = r.recv_timestamp ≡ result.recv_timestamp
  Unset result passed = Unit

  read_reply-Unset :
      (p : Profile) (result : PingResult F) (packet payload : Bytes) (now seq : ℕ)
      → OnOk (Unset result) (read_reply f e p result packet now seq payload)
  unfolding read_reply Unset
  read_reply-Unset p result packet payload now seq =
      OnOk-bind (Unset result) (slice payload 0 16) _ λ time.
        OnOk-bind (Unset result) (sub_word p 128 now (from_be_bytes time)) _ λ diff.
          OnOk-bind (Unset result) (byte_at packet 8) _
            λ ttl. OnOk-bind (Unset result) (slice payload 16 32) _ λ count. refl

  on_reply-Unset :
      (p : Profile) (identifier : ℕ) (result : PingResult F) (packet payload : Bytes) (now : ℕ)
      (t : IcmpType)
      → OnOk (Unset result) (on_reply f e p identifier result packet now t payload)
  unfolding on_reply Unset
  on_reply-Unset p identifier result packet payload now (echo_reply id seq) =
      elim (Bool-cases (id == identifier)) [
        | inl ours ↦ rw ours (read_reply-Unset p result packet payload now seq)
        | inr not_ours ↦ rw not_ours tt
      ]
  on_reply-Unset p identifier result packet payload now (echo_request id seq) = tt
  on_reply-Unset p identifier result packet payload now other = tt

  on_packet-Unset :
      (p : Profile) (identifier : ℕ) (result : PingResult F) (packet : Bytes) (clock : Sys)
      → OnOk (Unset result) (on_packet f e p identifier result packet clock)
  unfolding on_packet
  on_packet-Unset p identifier result packet clock =
      OnOk-bind (Unset result) (call clock_failed clock) _ λ now.
        OnOk-bind (Unset result) (slice packet 20 (length packet)) _ λ icmp.
          OnOk-bind (Unset result) (ok_or (e.from_slice icmp) bad_header) _
            λ header. on_reply-Unset p identifier result packet header.1 now header.0

  abbrev pub ReceivedAt : ℕ → List (PingResult F) → Type 0
  ReceivedAt t = All (λ r. r.recv_timestamp ≡ t)

  after_packet-ReceivedAt :
      (t : ℕ) (o : Outcome Error (Heard F)) (listening : Bool) (result : PingResult F)
      (next : PingResult F → List (PingResult F) × TaskEnd)
      → result.recv_timestamp ≡ t
      → OnOk (Unset result) o
      → ((r : PingResult F) → r.recv_timestamp ≡ t → ReceivedAt t (next r).0)
      → ReceivedAt t (after_packet f e o listening result next).0
  unfolding Unset
  after_packet-ReceivedAt t (ok (logged r)) true result next h u later = (u ∙ h, later r (u ∙ h))
  after_packet-ReceivedAt t (ok (logged r)) false result next h u later = tt
  after_packet-ReceivedAt t (ok passed) listening result next h u later = later result h
  after_packet-ReceivedAt t (err x) listening result next h u later = tt
  after_packet-ReceivedAt t panic listening result next h u later = tt

  recv_task_keeps :
      (p : Profile) (identifier t : ℕ) (result : PingResult F) (events : List Event)
      → result.recv_timestamp ≡ t
      → ReceivedAt t (recv_task f e p identifier result events).0
  unfolding recv_task
  recv_task_keeps p identifier t result [] h = tt
  recv_task_keeps p identifier t result (read_failed ∷ events) h = tt
  recv_task_keeps p identifier t result (arrived bytes clock listening ∷ events) h =
      after_packet-ReceivedAt t (on_packet f e p identifier result bytes clock) listening result _ h
        (on_packet-Unset p identifier result bytes clock)
        (λ r k. recv_task_keeps p identifier t r events k)

  -- Whatever packets arrive at whatever times, every result that reaches the log reader has the receive
  -- time 0 that the first result has: the task never sets it.
  pub recv_task-ReceivedAt :
      (p : Profile) (identifier : ℕ) (dst_addr src_addr : String) (events : List Event)
      → ReceivedAt 0 (recv_task f e p identifier (no_result f dst_addr src_addr) events).0
  recv_task-ReceivedAt p identifier dst_addr src_addr events =
      recv_task_keeps p identifier 0 (no_result f dst_addr src_addr) events refl
