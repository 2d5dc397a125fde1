-- ===== src/Ping/Echo.antt =====
-- What ping/src/udp.rs and ping/src/tcp.rs have in common word for word: the echo packet, the send
-- loop and the server's answer. `bincode` is a parameter.
pub mod Send
pub mod Sent
pub mod Plain
use niceperf.Prelude.{
  ℕ, ◌+◌, ◌%◌, ◌^◌, ◌<◌, ◌≡◌, Option, none, some, List, [], ◌∷◌, ◌++◌, Bytes, true, length,
  if◌then◌else◌,
}
use niceperf.Prelude.Outcome.{Outcome, ok, err, panic, ok_or, ◌>>=◌}
use niceperf.Ping.Task.{
  Error, clock_failed, send_failed, bad_packet, encode_failed, Sys, call, TaskEnd, waiting, ended,
  reached,
}

-- `UdpEchoPacket` and `TcpEchoPacket`.
pub record EchoPacket : Type 0 where
  pub identifier : ℕ
  pub send_timestamp : ℕ
  pub recv_timestamp : ℕ
  pub seq : ℕ
  pub payload : Bytes

-- What the code uses of `bincode`.
pub record Bincode : Type 0 where
  pub serialize : EchoPacket → Option Bytes
  pub deserialize : Bytes → Option EchoPacket

-- The fields fit their Rust types.
pub record IsPacket (p : EchoPacket) : Type 0 where
  pub identifier_u16 : p.identifier < 2 ^ 16
  pub send_u128 : p.send_timestamp < 2 ^ 128
  pub recv_u128 : p.recv_timestamp < 2 ^ 128
  pub seq_u128 : p.seq < 2 ^ 128

-- The encoding of each packet is `bytes`, and is read back.
pub record IsBincode (b : Bincode) : Type 0 where
  pub bytes : EchoPacket → Bytes
  pub encodes : (p : EchoPacket) → IsPacket p → b.serialize p ≡ some (bytes p)
  pub decodes : (p : EchoPacket) → IsPacket p → b.deserialize (bytes p) ≡ some p

pub record Round : Type 0 where
  pub clock : Sys
  pub send : Sys

pub record SendState : Type 0 where
  pub counter : ℕ
  pub payload : EchoPacket
  pub sent : List Bytes

module _ (b : Bincode) where
  -- The body of the send loop after the stop test.
  pub send_body : SendState → Round → Outcome Error SendState
  send_body s r = do
    send_timestamp ← call clock_failed r.clock
    let payload = record s.payload { seq = s.counter; send_timestamp = send_timestamp }
    encoded ← ok_or (b.serialize payload) encode_failed
    written ← call send_failed r.send
    ok (record {
      counter = (s.counter + 1) % 2 ^ 64;
      payload = payload;
      sent = s.sent ++ encoded ∷ [];
    })

  abbrev pub after_body :
      Outcome Error SendState → SendState → (SendState → TaskEnd × SendState) → TaskEnd × SendState
  after_body (ok s') s next = next s'
  after_body (err x) s next = (ended (err x), s)
  after_body panic s next = (ended panic, s)

  -- The loop over the rounds for which the pacing timer ticks.
  pub send_task : Option ℕ → SendState → List Round → TaskEnd × SendState
  send_task num_ping s [] = if reached num_ping s.counter then (ended (ok tt), s) else (waiting, s)
  send_task num_ping s (r ∷ rs) =
      let next = λ (s' : SendState). send_task num_ping s' rs in
      if reached num_ping s.counter then (ended (ok tt), s) else after_body (send_body s r) s next

  -- A server's answer to the bytes of a packet, at the time of its clock.
  unfoldable pub echo : Bytes → Sys → Outcome Error Bytes
  echo bytes clock = do
    recv_packet ← ok_or (b.deserialize bytes) bad_packet
    now ← call clock_failed clock
    ok_or (b.serialize (record recv_packet { recv_timestamp = now })) encode_failed
