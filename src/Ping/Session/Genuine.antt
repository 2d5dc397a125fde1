-- ===== src/Ping/Session/Genuine.antt =====
-- What it means that a result is that of a packet that was sent.
use niceperf.Prelude.{ℕ, ◌-◌, ◌≤◌, ◌≡◌, some, List, get_elem?}
use niceperf.Common.Statistics.{Float}
use niceperf.Ping.Logger.{UdpEchoResult, TcpEchoResult}

module _ {F : Type 0} (f : Float F) where
  -- The number and the send time are those of a round of the send loop, the packet was read no earlier, and
  -- the round trip time is the difference in milliseconds.
  pub record Genuine (ts : List (ℕ × ℕ)) (seq sent read : ℕ) (rtt : F) : Type 0 where
    pub written : ℕ
    pub of_round : get_elem? ts seq ≡ some (sent, written)
    pub later : sent ≤ read
    pub round_trip : rtt ≡ f.div (f.of_ℕ (read - sent)) (f.of_ℕ 1000000)

  abbrev pub UdpGenuine : List (ℕ × ℕ) → UdpEchoResult F → Type 0
  UdpGenuine ts r = Genuine ts r.seq r.send_timestamp r.recv_timestamp r.rtt

  abbrev pub TcpGenuine : List (ℕ × ℕ) → TcpEchoResult F → Type 0
  TcpGenuine ts r = Genuine ts r.seq r.send_timestamp r.recv_timestamp r.rtt
