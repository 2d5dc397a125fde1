-- ===== src/Ping/Icmp/Runs.antt =====
-- The ICMP theorems at concrete inputs. The parameters are concrete here: headers of eight bytes with a
-- zero checksum, and whole numbers in place of `f64`.
use niceperf.Prelude.{
  ℕ, ◌%◌, ◌^◌, ◌≡◌, refl, true, false, none, some, List, [], ◌∷◌, ◌++◌, Bytes, arith, map, length,
}
use niceperf.Prelude.Outcome.{ok}
use niceperf.Prelude.Words.{debug, to_be_bytes}
use niceperf.Common.Os.{v4}
use niceperf.Ping.Args.{CommonOpts}
use niceperf.Ping.Logger.{PingResult}
use niceperf.Ping.Task.{gave, byte_at}
use niceperf.Ping.Echo.Plain.{whole}
use niceperf.Ping.Icmp.Plain.{plain, header}
use niceperf.Ping.Icmp.{
  IcmpClient, prepare, send_task, logged, on_packet, no_result, arrived, recv_task,
}
use niceperf.Ping.Icmp.Send.{stamped, good, Finished}
use niceperf.Ping.Icmp.Prepare.{IsReady, ready, taken, start, run-Finished}
use niceperf.Ping.Icmp.Receive.{
  answered, IsReply, on_packet-answered, ReceivedAt, recv_task-ReceivedAt,
}

abbrev opts : ℕ → ℕ → CommonOpts
opts len count = record {
  len = some len;
  interval = some 1000;
  count = some count;
  iface = none;
  duration = none;
  file = none;
  preload = some 1;
  log = some true;
  dst_addr = v4 1;
  src_addr = some (v4 2);
}

abbrev client : ℕ → ℕ → IcmpClient
client len count = record {
  common = opts len count;
  src_addr = v4 2;
  dst_addr = v4 1;
  identifier = 700;
  has_logger = false;
}

client-IsReady : (len count : ℕ) → IsReady (client len count) len
client-IsReady len count = record {
  dst = 1;
  src = 2;
  interval = 1000;
  preload = 1;
  log = true;
  dst_v4 = refl;
  src_v4 = refl;
  has_len = refl;
  has_interval = refl;
  positive = omega arith;
  has_preload = refl;
  has_log = refl;
}

abbrev two_times : List (ℕ × ℕ)
two_times = (5, 64) ∷ (9, 64) ∷ []

run-Finished_example :
    (prepare debug (client 64 2)
      ≡ ok (ready (client 64 2) 64 (client-IsReady 64 2), taken (client 64 2)))
    × Finished plain 700 2 (start (ready (client 64 2) 64 (client-IsReady 64 2))) two_times (
        send_task plain
          (some 2)
          700
          (start (ready (client 64 2) 64 (client-IsReady 64 2)))
          (map (good plain) two_times ++ []))
run-Finished_example =
    run-Finished plain debug (client 64 2) 64 2 (client-IsReady 64 2) two_times [] (omega arith)
      (omega arith) refl refl (omega arith)

-- The reply to the packet with the count 70000, sent at 5: a header of IPv4 with the time to live 61.
abbrev reply : Bytes
reply =
    69 ∷ 0 ∷ 0 ∷ 60 ∷ 0 ∷ 0 ∷ 0 ∷ 0 ∷ 61 ∷ 1 ∷ 0 ∷ 0 ∷ 0 ∷ 0 ∷ 0 ∷ 1 ∷ 0 ∷ 0 ∷ 0 ∷ 2 ∷ []
    ++ (header 0 700 4464 ++ stamped [] 5 70000)

reply-IsReply : IsReply whole plain reply 700 (70000 % 2 ^ 16) 61 (stamped [] 5 70000)
unfolding byte_at to_be_bytes
reply-IsReply = record { long_enough = omega arith; ttl_byte = refl; parsed = refl }

abbrev nothing : PingResult ℕ
nothing = no_result whole "10.0.0.1" "10.0.0.2"

on_packet-answered_example :
    on_packet whole plain debug 700 nothing reply (gave 2000005)
    ≡ ok (logged (answered whole nothing (length reply) 61 5 70000 2000005))
on_packet-answered_example =
    on_packet-answered whole plain debug 700 nothing reply [] 5 70000 2000005 61 reply-IsReply
      (omega arith) (omega arith) (omega arith)

recv_task-ReceivedAt_example :
    ReceivedAt whole plain 0
      (recv_task whole plain debug 700 nothing (arrived reply (gave 2000005) true ∷ [])).0
recv_task-ReceivedAt_example =
    recv_task-ReceivedAt whole plain debug 700 "10.0.0.1" "10.0.0.2"
      (arrived reply (gave 2000005) true ∷ [])
