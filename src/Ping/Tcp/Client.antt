-- ===== src/Ping/Tcp/Client.antt =====
-- What the TCP client makes of the answers that come back.
use niceperf.Prelude.{
  ℕ, ◌-◌, ◌≤◌, ◌≡◌, refl, Bool, true, some, List, [], ◌∷◌, ◌++◌, Bytes, length, map, le→leb,
}
use niceperf.Prelude.Outcome.{ok, err}
use niceperf.Prelude.Words.{Profile, sub_word}
use niceperf.Common.Os.{no_tcp_info}
use niceperf.Common.Sockets.Raw.{refused, value, get_stats}
use niceperf.Common.Statistics.{Float}
use niceperf.Ping.Logger.{TcpEchoResult}
use niceperf.Ping.Task.{os, gave, ended}
use niceperf.Ping.Echo.{EchoPacket, Bincode}
use niceperf.Ping.Tcp.{Event, arrived, closed, on_frame, recv_task}

-- A packet that comes back: what its frame is read as, its bytes, when, and the retransmissions so far.
pub record Reply : Type 0 where
  pub packet : EchoPacket
  pub bytes : Bytes
  pub now : ℕ
  pub retrans : ℕ

module _ {F : Type 0} (f : Float F) where
  abbrev pub measured : TcpEchoResult F → Reply → TcpEchoResult F
  measured result r = record result {
    seq = r.packet.seq;
    send_timestamp = r.packet.send_timestamp;
    server_timestamp = r.packet.recv_timestamp;
    recv_timestamp = r.now;
    rtt = f.div (f.of_ℕ (r.now - r.packet.send_timestamp)) (f.of_ℕ 1000000);
    size = length r.bytes;
    retrans = r.retrans;
  }

  abbrev pub arrival : Reply → Event
  arrival r = arrived r.bytes (gave r.now) (value r.retrans) true

  -- Each frame is read as its packet, which is not from the future.
  abbrev pub Readable : Bincode → List Reply → Type 0
  Readable b [] = Unit {0}
  Readable b (r ∷ rs) =
      ((b.deserialize r.bytes ≡ some r.packet) × (r.packet.send_timestamp ≤ r.now)) × Readable b rs

  -- The rows of the results, each on top of the last.
  abbrev pub rows : TcpEchoResult F → List Reply → List (TcpEchoResult F)
  rows result [] = []
  rows result (r ∷ rs) = measured result r ∷ rows (measured result r) rs

  on_frame_lem :
      (b : Bincode) (p : Profile) (result : TcpEchoResult F) (r : Reply)
      → b.deserialize r.bytes ≡ some r.packet
      → r.packet.send_timestamp ≤ r.now
      → on_frame f b p result r.bytes (gave r.now) (value r.retrans) ≡ ok (measured result r)
  unfolding on_frame sub_word get_stats
  on_frame_lem b p result r read le = rw (read, le→leb r.packet.send_timestamp r.now le)

  -- Every frame that is a packet not from the future becomes one row, in order, with its own number, its
  -- round-trip time and the retransmissions that the system reports; the task ends without an error when
  -- the stream does. The log reader takes every result.
  pub recv_task-rows :
      (b : Bincode) (p : Profile) (result : TcpEchoResult F) (rs : List Reply) (more : List Event)
      → Readable b rs
      → recv_task f b p result (map arrival rs ++ closed ∷ more) ≡ (rows result rs, ended (ok tt))
  unfolding recv_task
  recv_task-rows b p result [] more h = refl
  recv_task-rows b p result (r ∷ rs) more ((read, le), h) =
      rw (on_frame_lem b p result r read le, recv_task-rows b p (measured result r) rs more h)

  -- Where the system has no statistics of the socket, the task ends with that error at the first packet,
  -- and logs nothing.
  pub recv_task_no_info :
      (b : Bincode) (p : Profile) (result : TcpEchoResult F) (packet : EchoPacket) (bytes : Bytes)
      (now e : ℕ) (listening : Bool) (events : List Event)
      → b.deserialize bytes ≡ some packet
      → recv_task f b p result (arrived bytes (gave now) (refused e) listening ∷ events)
        ≡ ([], ended (err (os no_tcp_info)))
  unfolding recv_task on_frame get_stats
  recv_task_no_info b p result packet bytes now e listening events read = rw read
