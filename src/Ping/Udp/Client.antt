-- ===== src/Ping/Udp/Client.antt =====
-- What the UDP client makes of the answers that come back.
use niceperf.Prelude.{
  ℕ, ◌+◌, ◌-◌, ◌%◌, ◌^◌, ◌≤◌, ◌<◌, ◌≡◌, refl, true, some, List, [], ◌∷◌, Bytes, arith, length, map,
  le→leb, lt→leb,
}
use niceperf.Prelude.Outcome.{ok, panic, ◌>>=◌}
use niceperf.Prelude.Words.{Profile, debug, release, sub_word}
use niceperf.Common.Statistics.{Float}
use niceperf.Ping.Logger.{UdpEchoResult}
use niceperf.Ping.Task.{gave, waiting}
use niceperf.Ping.Echo.{EchoPacket, Bincode, IsPacket, IsBincode, echo}
use niceperf.Ping.Echo.Send.{echo-bytes}
use niceperf.Ping.Udp.{Event, arrived, on_datagram, recv_task}

module _ {F : Type 0} (f : Float F) where
  -- The result for a packet of `size` bytes that is read as `p` at the time `now`.
  abbrev pub measured : UdpEchoResult F → EchoPacket → ℕ → ℕ → UdpEchoResult F
  measured result p size now = record result {
    seq = p.seq;
    send_timestamp = p.send_timestamp;
    server_timestamp = p.recv_timestamp;
    recv_timestamp = now;
    rtt = f.div (f.of_ℕ (now - p.send_timestamp)) (f.of_ℕ 1000000);
    size = size;
  }

  on_datagram_lem :
      (b : Bincode) (profile : Profile) (result : UdpEchoResult F) (p : EchoPacket) (bytes : Bytes)
      (now : ℕ)
      → b.deserialize bytes ≡ some p
      → p.send_timestamp ≤ now
      → on_datagram f b profile result bytes (gave now) ≡ ok (measured result p (length bytes) now)
  unfolding on_datagram sub_word
  on_datagram_lem b profile result p bytes now read le = rw (read, le→leb p.send_timestamp now le)

  answered-IsPacket :
      (p : EchoPacket) (now : ℕ)
      → IsPacket p
      → now < 2 ^ 128
      → IsPacket (record p { recv_timestamp = now })
  answered-IsPacket p now fits time = record {
    identifier_u16 = fits.identifier_u16;
    send_u128 = fits.send_u128;
    recv_u128 = time;
    seq_u128 = fits.seq_u128;
  }

  -- A packet that the server answers at `server_time` and the client reads at `now` is logged with its
  -- own number and send time, the server's time, and the milliseconds since it was sent. The packet
  -- and the times fit their types, and the client's clock must not have gone back.
  pub on_datagram-echo :
      (b : Bincode) (h : IsBincode b) (profile : Profile) (result : UdpEchoResult F)
      (p : EchoPacket) (server_time now : ℕ)
      → IsPacket p
      → server_time < 2 ^ 128
      → p.send_timestamp ≤ now
      → (do
        reply ← echo b (h.bytes p) (gave server_time)
        on_datagram f b profile result reply (gave now))
        ≡ ok (
            measured result
              (record p { recv_timestamp = server_time })
              (length (h.bytes (record p { recv_timestamp = server_time })))
              now)
  on_datagram-echo b h profile result p server_time now fits time le =
      rw (echo-bytes b h p server_time fits time) (
        on_datagram_lem b profile result (record p { recv_timestamp = server_time }) _ now
          (h.decodes (record p { recv_timestamp = server_time })
            (answered-IsPacket p server_time fits time))
          le)

  -- A packet that claims to have been sent after it arrives panics the task in the debug profile. In
  -- the release profile the round trip is taken from the difference modulo 2 ^ 128.
  pub on_datagram_from_future :
      (b : Bincode) (result : UdpEchoResult F) (p : EchoPacket) (bytes : Bytes) (now : ℕ)
      → b.deserialize bytes ≡ some p
      → now < p.send_timestamp
      → p.send_timestamp < 2 ^ 128
      → (on_datagram f b debug result bytes (gave now) ≡ panic)
        × (on_datagram f b release result bytes (gave now)
            ≡ ok (record (measured result p (length bytes) now) {
              rtt = f.div (f.of_ℕ (2 ^ 128 - (p.send_timestamp - now))) (f.of_ℕ 1000000);
            }))
  unfolding on_datagram sub_word
  on_datagram_from_future b result p bytes now read lt fits =
      let wrapped : (now + 2 ^ 128 - p.send_timestamp) % 2 ^ 128
          ≡ 2 ^ 128 - (p.send_timestamp - now) =
        omega arith in
      (
        rw (read, lt→leb p.send_timestamp now lt),
        rw (read, lt→leb p.send_timestamp now lt, wrapped),
      )

  -- Packets with the times at which they are read.
  abbrev pub Readable : Bincode → List (EchoPacket × Bytes × ℕ) → Type 0
  Readable b [] = Unit {0}
  Readable b ((p, bytes, now) ∷ ps) =
      ((b.deserialize bytes ≡ some p) × (p.send_timestamp ≤ now)) × Readable b ps

  abbrev pub arrivals : List (EchoPacket × Bytes × ℕ) → List Event
  arrivals = map (λ a. arrived a.1 (gave a.2) true)

  -- One result is logged for each packet, in order; only the addresses are those of the first result.
  pub recv_task-measured :
      (b : Bincode) (profile : Profile) (result : UdpEchoResult F)
      (ps : List (EchoPacket × Bytes × ℕ))
      → Readable b ps
      → recv_task f b profile result (arrivals ps)
        ≡ (map (λ a. measured result a.0 (length a.1) a.2) ps, waiting)
  unfolding recv_task
  recv_task-measured b profile result [] h = refl
  recv_task-measured b profile result ((p, bytes, now) ∷ ps) ((read, le), h) = rw (
    on_datagram_lem b profile result p bytes now read le,
    recv_task-measured b profile (measured result p (length bytes) now) ps h,
  )
