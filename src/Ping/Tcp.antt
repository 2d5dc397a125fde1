-- ===== src/Ping/Tcp.antt =====
-- The TCP client and server (ping/src/tcp.rs). The packet and the send loop are those of `Ping/Echo`,
-- the log reader is `Ping/LogTask`. Both ends frame the stream with the codec of `tokio_util`; what a
-- reader gives is a frame or the end.
pub mod Client
pub mod Server
pub mod Accepting
mod Runs
use Prim.Native.String.{String}
use niceperf.Prelude.{
  ℕ, ◌+◌, ◌-◌, ◌/◌, ◌%◌, ◌^◌, Bool, true, false, Option, none, some, List, [], ◌∷◌, ◌++◌, Bytes,
  ltb, ◌==◌, if◌then◌else◌, length,
}
use niceperf.Prelude.Outcome.{Outcome, ok, err, panic, unwrap, ok_or, ◌>>=◌}
use niceperf.Prelude.Words.{Profile, debug, release, sub_word}
use niceperf.Common.Os.{IpAddr}
use niceperf.Common.Os
use niceperf.Common.Sockets.Raw.{SockOpt, get_stats}
use niceperf.Common.Statistics.{Float, Statistics}
use niceperf.Common.Statistics as Stats
use niceperf.Ping.Args.{CommonOpts}
use niceperf.Ping.Logger.{TcpEchoResult}
use niceperf.Ping.Echo.{EchoPacket, Bincode}
use niceperf.Ping.Task.{
  log_closed, ipv4_only, zeros, Error, os, clock_failed, send_failed, bad_packet, encode_failed,
  join_failed, Sys, call, TaskEnd, waiting, ended,
}

-- `TCPClient`, the fields that `run` reads.
pub record TcpClient : Type 0 where
  pub common : CommonOpts
  pub src_addr : IpAddr
  pub dst_addr : IpAddr
  pub identifier : ℕ
  pub has_logger : Bool
  pub cc : String

pub record Prepared : Type 0 where
  pub dst_addr : ℕ
  pub src_addr : ℕ
  pub payload : EchoPacket
  pub interval : ℕ
  pub num_ping : Option ℕ
  pub has_logger : Bool
  pub log : Bool
  pub cc : String

-- The options that `run` reads before and while it starts the tasks; `take` empties the fields of the
-- client.
unfoldable pub prepare : TcpClient → Outcome Error (Prepared × TcpClient)
prepare c = do
  dst_addr ← ipv4_only c.dst_addr
  src_addr ← ipv4_only c.src_addr
  len ← unwrap c.common.len
  interval ← unwrap c.common.interval
  preload ← unwrap c.common.preload
  payload ← zeros len
  log ← unwrap c.common.log
  ok (
    record {
      dst_addr = dst_addr;
      src_addr = src_addr;
      payload = record {
        identifier = c.identifier;
        seq = 0;
        send_timestamp = 0;
        recv_timestamp = 0;
        payload = payload;
      };
      interval = interval;
      num_ping = c.common.count;
      has_logger = c.has_logger;
      log = log;
      cc = c.cc;
    },
    record c { common = record c.common { count = none; log = none }; has_logger = false },
  )

-- `?` on an error of a socket.
abbrev pub from_os {ℓ} : {A : Type ℓ} → Outcome Os.Error A → Outcome Error A
from_os (ok a) = ok a
from_os (err e) = err (os e)
from_os panic = panic

-- What `rx.next()` gives the client: a frame, with the answers of the clock and of `getsockopt` (the
-- retransmissions) and whether the log reader still takes a result, or the end, by a closed stream or an
-- error.
pub data Event : Type 0 where
  arrived : Bytes → Sys → SockOpt ℕ → Bool → Event
  closed : Event

module _ {F : Type 0} (f : Float F) (b : Bincode) where
  -- One round of the receive loop: the result that goes to the log reader.
  unfoldable pub on_frame :
      Profile → TcpEchoResult F → Bytes → Sys → SockOpt ℕ → Outcome Error (TcpEchoResult F)
  on_frame p result frame clock stats = do
    recv_timestamp ← call clock_failed clock
    decoded_packet ← ok_or (b.deserialize frame) bad_packet
    total_retrans ← from_os (get_stats stats)
    diff ← sub_word p 128 recv_timestamp decoded_packet.send_timestamp
    ok (record result {
      seq = decoded_packet.seq;
      rtt = f.div (f.of_ℕ diff) (f.of_ℕ 1000000);
      send_timestamp = decoded_packet.send_timestamp;
      recv_timestamp = recv_timestamp;
      server_timestamp = decoded_packet.recv_timestamp;
      size = length frame;
      retrans = total_retrans;
    })

  abbrev pub after_result :
      Outcome Error (TcpEchoResult F)
      → Bool
      → (TcpEchoResult F → List (TcpEchoResult F) × TaskEnd)
      → List (TcpEchoResult F) × TaskEnd
  after_result (ok r) true next = let (rs, end) = next r in (r ∷ rs, end)
  after_result (ok r) false next = ([], ended (err log_closed))
  after_result (err x) listening next = ([], ended (err x))
  after_result panic listening next = ([], ended panic)

  -- The receive task: what it sends to the log reader, in order, and how it ends.
  unfoldable pub recv_task :
      Profile → TcpEchoResult F → List Event → List (TcpEchoResult F) × TaskEnd
  recv_task p result [] = ([], waiting)
  recv_task p result (closed ∷ events) = ([], ended (ok tt))
  recv_task p result (arrived frame clock stats listening ∷ events) =
      after_result (on_frame p result frame clock stats) listening (λ r. recv_task p r events)

-- A frame that a handler reads: its bytes, the two instants that are read about it in nanoseconds, and
-- the answers of the system's clock and of `send`.
pub record Frame : Type 0 where
  pub bytes : Bytes
  pub elapsed_at : ℕ
  pub now : ℕ
  pub clock : Sys
  pub send : Sys

pub data FrameEvent : Type 0 where
  frame : Frame → FrameEvent
  disconnected : FrameEvent

-- The variables of `client_handler`, the answers that it has sent and the statistics that it has printed.
-- `recv_counter` is an `i32`, here its two's complement.
pub record Handler (F : Type 0) : Type 0 where
  pub recv_counter : ℕ
  pub time : ℕ
  pub stats : Statistics F
  pub replies : List Bytes
  pub printed : List (Statistics F)

-- `recv_counter += 1`
unfoldable pub count_up : Profile → ℕ → Outcome Error ℕ
count_up debug n = if n == 2 ^ 31 - 1 then panic else ok ((n + 1) % 2 ^ 32)
count_up release n = ok ((n + 1) % 2 ^ 32)

-- `recv_counter % 100 == 0`, also of a negative number.
abbrev pub hundredth : ℕ → Bool
hundredth n = (if ltb n (2 ^ 31) then n % 100 else (2 ^ 32 - n) % 100) == 0

-- What a connection gives the server.
pub data Accept : Type 0 where
  accepted : List FrameEvent → Accept
  accept_failed : Accept

module _ {F : Type 0} (f : Float F) (b : Bincode) where
  -- The time of a frame: the first one starts the clock, a later one is measured.
  abbrev pub timed : Handler F → Frame → Handler F
  timed s r = if s.recv_counter == 0 then record s { time = r.now } else record s {
    stats = Stats.update f s.stats (f.of_ℕ ((r.elapsed_at - s.time) / 1000000));
    time = r.now;
  }

  -- The answer that is made and sent; a frame that is no packet panics.
  unfoldable pub answer : Frame → Outcome Error Bytes
  answer r = do
    decoded_packet ← unwrap (b.deserialize r.bytes)
    recv_timestamp ← call clock_failed r.clock
    encoded ←
        ok_or (b.serialize (record decoded_packet { recv_timestamp = recv_timestamp }))
          encode_failed
    written ← call send_failed r.send
    ok encoded

  abbrev pub after_count : Outcome Error ℕ → Handler F → Handler F × Outcome Error (Unit {0})
  after_count (ok n) s = (record s { recv_counter = n }, ok tt)
  after_count (err e) s = (s, err e)
  after_count panic s = (s, panic)

  abbrev pub after_answer :
      Outcome Error Bytes → Profile → Handler F → Handler F × Outcome Error (Unit {0})
  after_answer (ok reply) p s = after_count (count_up p s.recv_counter) (record s {
    replies = s.replies ++ reply ∷ [];
    printed = if hundredth s.recv_counter then s.printed ++ s.stats ∷ [] else s.printed;
  })
  after_answer (err e) p s = (s, err e)
  after_answer panic p s = (s, panic)

  -- One round of `client_handler`.
  unfoldable pub on_client_frame :
      Profile → Handler F → Frame → Handler F × Outcome Error (Unit {0})
  on_client_frame p s r = after_answer (answer r) p (timed s r)

  abbrev pub after_round :
      Handler F × Outcome Error (Unit {0}) → (Handler F → Handler F × TaskEnd) → Handler F × TaskEnd
  after_round (s, ok u) next = next s
  after_round (s, err e) next = (s, ended (err e))
  after_round (s, panic) next = (s, ended panic)

  unfoldable pub client_handler : Profile → Handler F → List FrameEvent → Handler F × TaskEnd
  client_handler p s [] = (s, waiting)
  client_handler p s (disconnected ∷ events) = (s, ended (ok tt))
  client_handler p s (frame r ∷ events) =
      after_round (on_client_frame p s r) (λ s'. client_handler p s' events)

  abbrev pub fresh : Handler F
  fresh = record { recv_counter = 0; time = 0; stats = Stats.new f; replies = []; printed = [] }

  -- The server waits for its handler. One that fails, which `unwrap` makes a panic, fails the wait.
  abbrev pub after_client :
      Handler F × TaskEnd → (Unit {0} → List (Handler F) × TaskEnd) → List (Handler F) × TaskEnd
  after_client (s, waiting) next = (s ∷ [], waiting)
  after_client (s, ended (ok u)) next = let (ss, end) = next tt in (s ∷ ss, end)
  after_client (s, ended (err e)) next = (s ∷ [], ended (err join_failed))
  after_client (s, ended panic) next = (s ∷ [], ended (err join_failed))

  -- `TCPServer::run`: the handlers that it started, in order, and how it ends.
  unfoldable pub run : Profile → List Accept → List (Handler F) × TaskEnd
  run p [] = ([], waiting)
  run p (accept_failed ∷ rest) = run p rest
  run p (accepted events ∷ rest) = after_client (client_handler p fresh events) (λ _. run p rest)
