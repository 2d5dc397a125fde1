-- ===== src/Ping/Session/Pings.antt =====
-- Two requests, of which the first is lost and the answer to the second comes twice, and between these a
-- request and an answer of others.
use niceperf.Prelude.{
  ℕ, ◌≡◌, refl, true, false, some, List, [], ◌∷◌, ◌++◌, Bytes, arith, map, replicate,
}
use niceperf.Prelude.Outcome.{Yields}
use niceperf.Prelude.Words.{debug}
use niceperf.Ping.Logger.{PingResult}
use niceperf.Prelude.Network.{deliver}
use niceperf.Ping.LogTask.{LogConfig}
use niceperf.Ping.LogTask.Whole.{all_written, Log}
use niceperf.Ping.Task.{waiting, byte_at}
use niceperf.Ping.Echo.Plain.{whole}
use niceperf.Ping.Icmp.{Prepared, no_result, echo_request, echo_reply}
use niceperf.Ping.Icmp.Send.{good}
use niceperf.Ping.Icmp.Plain.{plain, header, ip_header, host, host-parsed}
use niceperf.Ping.Session.{IcmpNetwork, icmp_log, icmp_session}
use niceperf.Ping.Session.OverIcmp.{IsHost, IsStray}
use niceperf.Ping.Session.Answered.{IsSending, Results, icmp_session-logged}
use niceperf.Ping.Session.Answers.{pool}

abbrev two : List (ℕ × ℕ)
two = (5, 42) ∷ (9, 42) ∷ []

abbrev client : Prepared
client = record {
  dst_addr = 1;
  src_addr = 2;
  payload = replicate 34 0;
  interval = 1000;
  num_ping = some 2;
  identifier = 700;
  has_logger = true;
  log = false;
}

abbrev own_request : Bytes
own_request = ip_header ++ header 8 700 0

abbrev foreign_reply : Bytes
foreign_reply = ip_header ++ header 0 8 0

abbrev network : IcmpNetwork
network = record {
  host = host;
  strays = own_request ∷ foreign_reply ∷ [];
  back = (1, 3000009) ∷ (2, 3000010) ∷ (1, 3000011) ∷ (3, 3000012) ∷ [];
}

abbrev config : LogConfig
config = record { profile = debug; has_logger = true; log = false }

abbrev nothing : PingResult ℕ
nothing = no_result whole "10.0.0.1" "10.0.0.2"

client-IsSending : IsSending client two
client-IsSending = record {
  limit = refl;
  ticks = omega arith;
  room = omega arith;
  times = omega arith;
  few = omega arith;
}

host-IsHost : IsHost whole plain 700 host
unfolding byte_at
host-IsHost = record {
  ttl = 61;
  replies = λ seq payload lt. record {
    long_enough = omega arith;
    ttl_byte = refl;
    parsed = host-parsed 700 seq payload;
  };
}

own_request-IsStray : IsStray whole plain 700 own_request
own_request-IsStray = record {
  long_enough = omega arith;
  kind = echo_request 700 0;
  payload = [];
  parsed = refl;
  not_ours = tt;
}

foreign_reply-IsStray : IsStray whole plain 700 foreign_reply
foreign_reply-IsStray = record {
  long_enough = omega arith;
  kind = echo_reply 8 0;
  payload = [];
  parsed = refl;
  not_ours = λ e. omega (arith, e);
}

icmp_session-logged_example :
    (results : List (PingResult ℕ)) × (icmp_session whole plain debug client nothing network
        (map (good plain) two ++ [])
      ≡ (results, waiting))
    × Results whole two (deliver (pool network two) network.back) results
    × Yields (Log config results) (icmp_log whole config (all_written results))
icmp_session-logged_example =
    icmp_session-logged whole plain debug client nothing network two [] config client-IsSending
      host-IsHost (own_request-IsStray, (foreign_reply-IsStray, tt)) (omega arith) (omega arith)
