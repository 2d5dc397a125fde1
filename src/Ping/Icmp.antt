-- ===== src/Ping/Icmp.antt =====
-- `ICMPClient::run` (ping/src/icmp.rs): its checks, the send task and the receive task. The log reader
-- is `Ping/LogTask`. The ICMP headers of `etherparse`, the clock and the socket are parameters.
pub mod Send
pub mod Receive
pub mod Prepare
pub mod Plain
mod Runs
use Prim.Native.String.{String}
use niceperf.Prelude.{
  ℕ, ◌+◌, ◌-◌, ◌^◌, ◌%◌, Bool, true, false, Option, none, some, List, [], ◌∷◌, ◌++◌, Bytes, leb,
  ltb, ◌==◌, if◌then◌else◌, length,
}
use niceperf.Prelude.Outcome.{Outcome, ok, err, panic, unwrap, ok_or, ◌>>=◌, ◌>>◌}
use niceperf.Prelude.Words.{Profile, sub_word, to_be_bytes, from_be_bytes}
use niceperf.Common.Os.{IpAddr}
use niceperf.Common.Statistics.{Float}
use niceperf.Ping.Args.{CommonOpts}
use niceperf.Ping.Logger.{PingResult}
use niceperf.Ping.Task.{
  ipv4_only, zeros, timer, paced, log_closed, Error, payload_too_small, clock_failed, send_failed,
  bad_header, Sys, call, TaskEnd, waiting, ended, reached, copy_into, slice, byte_at,
}

-- `Icmpv4Type`, of which the code tells echo replies apart.
pub data IcmpType : Type 0 where
  echo_request : ℕ → ℕ → IcmpType
  echo_reply : ℕ → ℕ → IcmpType
  other : IcmpType

-- What the code uses of `etherparse`: the bytes of an echo request's header with its checksum over the
-- payload, and the reading of a header, which gives the payload behind it.
pub record Etherparse : Type 0 where
  pub request_header : ℕ → ℕ → Bytes → Bytes
  pub from_slice : Bytes → Option (IcmpType × Bytes)

-- `ICMPClient`, the fields that `run` reads.
pub record IcmpClient : Type 0 where
  pub common : CommonOpts
  pub src_addr : IpAddr
  pub dst_addr : IpAddr
  pub identifier : ℕ
  pub has_logger : Bool

-- What the two tasks are started with.
pub record Prepared : Type 0 where
  pub dst_addr : ℕ
  pub src_addr : ℕ
  pub payload : Bytes
  pub interval : ℕ
  pub num_ping : Option ℕ
  pub identifier : ℕ
  pub has_logger : Bool
  pub log : Bool

-- The part of `run` before the tasks start; `take` empties the fields of the client.
pub prepare : Profile → IcmpClient → Outcome Error (Prepared × IcmpClient)
prepare p c = do
  dst_addr ← ipv4_only c.dst_addr
  src_addr ← ipv4_only c.src_addr
  len ← unwrap c.common.len
  interval ← unwrap c.common.interval
  preload ← unwrap c.common.preload
  timer interval
  size ← sub_word p 64 len 8
  payload ← zeros size
  (if ltb (length payload) 16 then err payload_too_small else ok tt)
  log ← unwrap c.common.log
  ok (
    record {
      dst_addr = dst_addr;
      src_addr = src_addr;
      payload = payload;
      interval = interval;
      num_ping = c.common.count;
      identifier = c.identifier;
      has_logger = c.has_logger;
      log = log;
    },
    record c { common = record c.common { count = none; log = none }; has_logger = false },
  )

-- What the clock and the socket answer in one round of the send loop.
pub record Round : Type 0 where
  pub clock : Sys
  pub send : Sys

pub record SendState : Type 0 where
  pub counter : ℕ
  pub payload : Bytes
  pub sent : List Bytes

-- `payload[..16]` becomes the time and `payload[16..32]` the count.
pub stamp : Bytes → ℕ → ℕ → Outcome Error Bytes
stamp payload send_timestamp send_seq = do
  timed ← copy_into payload 0 (to_be_bytes 16 send_timestamp)
  copy_into timed 16 (to_be_bytes 16 send_seq)

module _ (e : Etherparse) where
  -- The body of the loop after the stop test: `payload` keeps what was copied into it.
  pub send_body : ℕ → SendState → Round → Outcome Error SendState
  send_body identifier s r = do
    let send_seq = s.counter
    send_timestamp ← call clock_failed r.clock
    payload ← stamp s.payload send_timestamp send_seq
    let packet = e.request_header identifier (send_seq % 2 ^ 16) payload ++ payload
    written ← call send_failed r.send
    ok (record {
      counter = (s.counter + 1) % 2 ^ 64;
      payload = payload;
      sent = s.sent ++ packet ∷ [];
    })

  abbrev pub after_body :
      Outcome Error SendState → SendState → (SendState → TaskEnd × SendState) → TaskEnd × SendState
  after_body (ok s') s next = next s'
  after_body (err x) s next = (ended (err x), s)
  after_body panic s next = (ended panic, s)

  -- The loop over the rounds for which the pacing timer ticks.
  pub send_task : Option ℕ → ℕ → SendState → List Round → TaskEnd × SendState
  send_task num_ping identifier s [] =
      if reached num_ping s.counter then (ended (ok tt), s) else (waiting, s)
  send_task num_ping identifier s (r ∷ rs) =
      let next = λ (s' : SendState). send_task num_ping identifier s' rs in
      if reached num_ping s.counter
      then (ended (ok tt), s)
      else after_body (send_body identifier s r) s next

-- What the receive task makes of a packet.
pub data Heard (F : Type 0) : Type 0 where
  logged : PingResult F → Heard F
  passed : Heard F

module _ {F : Type 0} (f : Float F) (e : Etherparse) where
  -- The rest of a round, on a reply to this client. `recv_timestamp` of the result is left as it was.
  pub read_reply : Profile → PingResult F → Bytes → ℕ → ℕ → Bytes → Outcome Error (Heard F)
  read_reply p result packet recv_timestamp seq payload = do
    time ← slice payload 0 16
    diff ← sub_word p 128 recv_timestamp (from_be_bytes time)
    ttl ← byte_at packet 8
    count ← slice payload 16 32
    ok (
        logged (record result {
          seq = seq;
          unique_seq = from_be_bytes count;
          ttl = ttl;
          rtt = f.div (f.of_ℕ diff) (f.of_ℕ 1000000);
          size = length packet;
          send_timestamp = from_be_bytes time;
        }))

  -- A packet whose header is of type `t`, with `payload` behind it.
  unfoldable pub on_reply :
      Profile → ℕ → PingResult F → Bytes → ℕ → IcmpType → Bytes → Outcome Error (Heard F)
  on_reply p identifier result packet recv_timestamp (echo_reply id seq) payload =
      if id == identifier then read_reply p result packet recv_timestamp seq payload else ok passed
  on_reply p identifier result packet recv_timestamp t payload = ok passed

  -- One round of `while let Ok(len) = rx.read(&mut buf)`: the packet is `&buf[..len]`.
  unfoldable pub on_packet : Profile → ℕ → PingResult F → Bytes → Sys → Outcome Error (Heard F)
  on_packet p identifier result packet clock = do
    recv_timestamp ← call clock_failed clock
    icmp ← slice packet 20 (length packet)
    header ← ok_or (e.from_slice icmp) bad_header
    on_reply p identifier result packet recv_timestamp header.0 header.1

-- What the receive loop waits for: a packet with the clock's answer, or an error of the socket, which
-- ends the `while let`; and whether the log reader still takes a result.
pub data Event : Type 0 where
  arrived : Bytes → Sys → Bool → Event
  read_failed : Event

module _ {F : Type 0} (f : Float F) (e : Etherparse) where
  abbrev pub after_packet :
      Outcome Error (Heard F)
      → Bool
      → PingResult F
      → (PingResult F → List (PingResult F) × TaskEnd)
      → List (PingResult F) × TaskEnd
  after_packet (ok (logged r)) true result next = let (rs, end) = next r in (r ∷ rs, end)
  after_packet (ok (logged r)) false result next = ([], ended (err log_closed))
  after_packet (ok passed) listening result next = next result
  after_packet (err x) listening result next = ([], ended (err x))
  after_packet panic listening result next = ([], ended panic)

  -- The receive task: what it sends to the log reader, in order, and how it ends. One `result` is
  -- filled in again for every reply.
  unfoldable pub recv_task : Profile → ℕ → PingResult F → List Event → List (PingResult F) × TaskEnd
  recv_task p identifier result [] = ([], waiting)
  recv_task p identifier result (read_failed ∷ events) = ([], ended (ok tt))
  recv_task p identifier result (arrived bytes clock listening ∷ events) =
      after_packet (on_packet f e p identifier result bytes clock) listening result
        (λ r. recv_task p identifier r events)

-- The result that the task starts with.
abbrev pub no_result : {F : Type 0} → Float F → String → String → PingResult F
no_result f dst_addr src_addr = record {
  seq = 0;
  unique_seq = 0;
  ttl = 0;
  rtt = f.zero;
  size = 0;
  send_timestamp = 0;
  recv_timestamp = 0;
  dst_addr = dst_addr;
  src_addr = src_addr;
}

-- The end of `run`, once the send task has ended: the counts that it reports as lost, if any.
unfoldable pub report_loss : ℕ → ℕ → Option (ℕ × ℕ)
report_loss recv_counter send_counter =
    if ltb recv_counter send_counter then some (send_counter, recv_counter) else none
