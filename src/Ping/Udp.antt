-- ===== src/Ping/Udp.antt =====
-- The UDP client and server (ping/src/udp.rs). The packet, the send loop and the answer are those of
-- `Ping/Echo`, the log reader is `Ping/LogTask`.
pub mod ClientSocket
pub mod Client
pub mod Server
mod Runs
use Prim.Native.String.{String}
use niceperf.Prelude.{
  ℕ, Bool, true, false, Option, none, some, List, [], ◌∷◌, ◌++◌, Bytes, if◌then◌else◌, length,
}
use niceperf.Prelude.Outcome.{Outcome, ok, err, panic, unwrap, ok_or, ◌>>=◌, ◌>>◌}
use niceperf.Prelude.Words.{Profile, sub_word}
use niceperf.Common.Os.{IpAddr, Answer}
use niceperf.Common.Os
use niceperf.Common.Sockets.{Socket}
use ClientSocket.{Peer, client_socket}
use niceperf.Common.Statistics.{Float}
use niceperf.Ping.Args.{CommonOpts}
use niceperf.Ping.Logger.{UdpEchoResult}
use niceperf.Ping.Echo.{EchoPacket, Bincode, echo}
use niceperf.Ping.Task.{
  ipv4_only, zeros, timer, log_closed, Error, os, clock_failed, send_failed, receive_failed,
  bad_packet, client_timeout, Sys, gave, refused, call, TaskEnd, waiting, ended,
}

-- `UDPClient`, the fields that `run` reads.
pub record UdpClient : Type 0 where
  pub common : CommonOpts
  pub src_addr : IpAddr
  pub dst_addr : IpAddr
  pub identifier : ℕ
  pub has_logger : Bool

pub record Prepared : Type 0 where
  pub dst_addr : ℕ
  pub src_addr : ℕ
  pub payload : EchoPacket
  pub interval : ℕ
  pub num_ping : Option ℕ
  pub has_logger : Bool
  pub log : Bool

-- The part of `run` before the tasks start; `take` empties the fields of the client.
pub prepare : UdpClient → Outcome Error (Prepared × UdpClient)
prepare c = do
  dst_addr ← ipv4_only c.dst_addr
  src_addr ← ipv4_only c.src_addr
  len ← unwrap c.common.len
  interval ← unwrap c.common.interval
  preload ← unwrap c.common.preload
  timer interval
  payload ← zeros len
  log ← unwrap c.common.log
  ok (
    record {
      dst_addr = dst_addr;
      src_addr = src_addr;
      payload = record {
        identifier = c.identifier;
        seq = 0;
        send_timestamp = 0;
        recv_timestamp = 0;
        payload = payload;
      };
      interval = interval;
      num_ping = c.common.count;
      has_logger = c.has_logger;
      log = log;
    },
    record c { common = record c.common { count = none; log = none }; has_logger = false },
  )

-- What the receive loop waits for: a datagram with the clock's answer, or an error of the socket, which
-- ends the `while let`; and whether the log reader still takes a result.
pub data Event : Type 0 where
  arrived : Bytes → Sys → Bool → Event
  read_failed : Event

module _ {F : Type 0} (f : Float F) (b : Bincode) where
  -- One round of the receive loop: the result that goes to the log reader.
  pub on_datagram : Profile → UdpEchoResult F → Bytes → Sys → Outcome Error (UdpEchoResult F)
  on_datagram p result bytes clock = do
    recv_timestamp ← call clock_failed clock
    decoded_packet ← ok_or (b.deserialize bytes) bad_packet
    diff ← sub_word p 128 recv_timestamp decoded_packet.send_timestamp
    ok (record result {
      seq = decoded_packet.seq;
      rtt = f.div (f.of_ℕ diff) (f.of_ℕ 1000000);
      send_timestamp = decoded_packet.send_timestamp;
      recv_timestamp = recv_timestamp;
      server_timestamp = decoded_packet.recv_timestamp;
      size = length bytes;
    })

  abbrev pub after_datagram :
      Outcome Error (UdpEchoResult F)
      → Bool
      → (UdpEchoResult F → List (UdpEchoResult F) × TaskEnd)
      → List (UdpEchoResult F) × TaskEnd
  after_datagram (ok r) true next = let (rs, end) = next r in (r ∷ rs, end)
  after_datagram (ok r) false next = ([], ended (err log_closed))
  after_datagram (err x) listening next = ([], ended (err x))
  after_datagram panic listening next = ([], ended panic)

  -- The receive task: what it sends to the log reader, in order, and how it ends.
  pub recv_task : Profile → UdpEchoResult F → List Event → List (UdpEchoResult F) × TaskEnd
  recv_task p result [] = ([], waiting)
  recv_task p result (read_failed ∷ events) = ([], ended (ok tt))
  recv_task p result (arrived bytes clock listening ∷ events) =
      after_datagram (on_datagram p result bytes clock) listening (λ r. recv_task p r events)

-- What a wait of `UDPServer::handle_client` ends with: ten seconds without a datagram, or a datagram with
-- the answers of the clock and of `send`. A failed `recv` only disables its branch of the `select!`.
pub data ClientEvent : Type 0 where
  idle : ClientEvent
  datagram : Bytes → Sys → Sys → ClientEvent
  recv_error : ClientEvent

module _ (b : Bincode) where
  abbrev pub after_echo :
      Outcome Error Bytes → Sys → (Unit {0} → List Bytes × TaskEnd) → List Bytes × TaskEnd
  after_echo (ok reply) (gave n) next = let (rs, end) = next tt in (reply ∷ rs, end)
  after_echo (ok reply) (refused e) next = ([], ended (err (send_failed e)))
  after_echo (err x) sent next = ([], ended (err x))
  after_echo panic sent next = ([], ended panic)

  -- `handle_client`: the answers that it sends, in order, and how it ends. Once `recv` has failed only
  -- the timeout is left.
  pub handle_client : List ClientEvent → List Bytes × TaskEnd
  handle_client [] = ([], waiting)
  handle_client (idle ∷ events) = ([], ended (err client_timeout))
  handle_client (recv_error ∷ events) = ([], ended (err client_timeout))
  handle_client (datagram bytes clock sent ∷ events) =
      after_echo (echo b bytes clock) sent (λ _. handle_client events)

-- What `recv_from` gives `UDPServer::run`.
pub data ServerEvent : Type 0 where
  from : Peer → Bytes → Sys → Sys → Answer → ServerEvent
  failed : ℕ → ServerEvent

-- What the server has done: the answers that it sent and to whom, and the peers that it started a
-- handler for.
pub record UdpServer : Type 0 where
  pub local : Peer
  pub answers : List (Peer × Bytes)
  pub handlers : List Peer

module _ (b : Bincode) where
  -- The answer that is made and sent.
  pub answer_to : Bytes → Sys → Sys → Outcome Error Bytes
  answer_to bytes clock sent = do
    reply ← echo b bytes clock
    written ← call send_failed sent
    ok reply

  abbrev pub after_socket :
      Outcome Os.Error Socket → UdpServer → Peer → UdpServer × Outcome Error (Unit {0})
  after_socket (ok socket) s peer = (record s { handlers = s.handlers ++ peer ∷ [] }, ok tt)
  after_socket (err e) s peer = (s, err (os e))
  after_socket panic s peer = (s, panic)

  abbrev pub after_answer :
      Outcome Error Bytes → UdpServer → Peer → Answer → UdpServer × Outcome Error (Unit {0})
  after_answer (ok reply) s peer system =
      after_socket (client_socket s.local peer system []).0
        (record s { answers = s.answers ++ (peer, reply) ∷ [] }) peer
  after_answer (err e) s peer system = (s, err e)
  after_answer panic s peer system = (s, panic)

  -- One round of `UDPServer::run`.
  pub serve : UdpServer → ServerEvent → UdpServer × Outcome Error (Unit {0})
  serve s (failed e) = (s, err (receive_failed e))
  serve s (from peer bytes clock sent system) =
      after_answer (answer_to bytes clock sent) s peer system

  abbrev pub after_round :
      UdpServer × Outcome Error (Unit {0}) → (UdpServer → UdpServer × TaskEnd) → UdpServer × TaskEnd
  after_round (s, ok u) next = next s
  after_round (s, err e) next = (s, ended (err e))
  after_round (s, panic) next = (s, ended panic)

  -- `UDPServer::run`, over what the socket gives: an error in any round ends the server.
  pub run : UdpServer → List ServerEvent → UdpServer × TaskEnd
  run s [] = (s, waiting)
  run s (e ∷ es) = after_round (serve s e) (λ s'. run s' es)
