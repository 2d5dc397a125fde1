-- ===== src/Latency/Protocol.antt =====
-- The messages of the control channel and the packets of a test (latency/src/protocol.rs). `bincode` is a
-- parameter.
use niceperf.Prelude.{ℕ, ◌+◌, ◌%◌, ◌^◌, ◌≡◌, Option, some, Bytes, length}
use niceperf.Prelude.Outcome.{Outcome, ok, panic, ◌>>=◌}
use niceperf.Ping.Task.{Sys, refused, gave}
use niceperf.Latency.Args.{Config}

pub data ErrorType : Type 0 where
  handshake_failed test_failed unknown : ErrorType

-- `Error(ErrorType)`
pub record Error : Type 0 where
  pub kind : ErrorType

pub data MessageType : Type 0 where
  new_test : ℕ → Config → MessageType
  handshake : ℕ → MessageType
  error : Error → MessageType

pub record LatencyMsg : Type 0 where
  pub id : ℕ
  pub seq : ℕ
  pub timestamp : ℕ
  pub payload : Bytes

pub record LatencyResult : Type 0 where
  pub id : ℕ
  pub seq : ℕ
  pub send_timestamp : ℕ
  pub recv_timestamp : ℕ
  pub payload_size : ℕ

-- The clock's nanoseconds under `unwrap` and `as u64`.
abbrev pub nanos_u64 : {E : Type 0} → Sys → Outcome E ℕ
nanos_u64 (refused e) = panic
nanos_u64 (gave n) = ok (n % 2 ^ 64)

-- `LatencyResult::from`; `clock` is what the system's clock answers.
unfoldable pub from : {E : Type 0} → LatencyMsg → Sys → Outcome E LatencyResult
from msg clock = do
  recv_timestamp ← nanos_u64 clock
  ok (record {
    id = msg.id;
    seq = msg.seq;
    send_timestamp = msg.timestamp;
    recv_timestamp = recv_timestamp;
    payload_size = length msg.payload + 8 + 8 + 8;
  })

-- What the code uses of `bincode`.
pub record Codec : Type 0 where
  pub serialize : MessageType → Option Bytes
  pub deserialize : Bytes → Option MessageType

-- What is encoded is read back.
pub record IsCodec (b : Codec) : Type 0 where
  pub reads_back :
      (m : MessageType) (bytes : Bytes) → b.serialize m ≡ some bytes → b.deserialize bytes ≡ some m
