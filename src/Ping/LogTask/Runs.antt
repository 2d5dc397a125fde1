-- ===== src/Ping/LogTask/Runs.antt =====
-- The log reader at a concrete series of UDP results.
use niceperf.Prelude.{ℕ, refl, Bool, true, List, [], ◌∷◌, arith}
use niceperf.Prelude.Outcome.{Yields}
use niceperf.Prelude.Words.{debug}
use niceperf.Ping.Logger.{UdpEchoResult}
use niceperf.Ping.Echo.Plain.{whole}
use niceperf.Ping.LogTask.{View, LogConfig, start, log_task}
use niceperf.Ping.LogTask.Counts.{LoggedAll, log_task-LoggedAll}

abbrev view : View ℕ (UdpEchoResult ℕ)
view = record { recv_timestamp = λ r. r.recv_timestamp; rtt = λ r. r.rtt }

abbrev config : LogConfig
config = record { profile = debug; has_logger = true; log = true }

abbrev at : ℕ → ℕ → UdpEchoResult ℕ
at now rtt = record {
  seq = 0;
  send_timestamp = 0;
  server_timestamp = 0;
  recv_timestamp = now;
  rtt = rtt;
  size = 60;
  src_addr = "10.0.0.2";
  dst_addr = "10.0.0.1";
}

abbrev two : List (UdpEchoResult ℕ × Bool)
two = (at 5000000 2, true) ∷ (at 9000000 4, true) ∷ []

log_task-LoggedAll_example :
    Yields
      (λ s'. LoggedAll whole view config (start whole view) s' two)
      (log_task whole view config (start whole view) two)
unfolding start
log_task-LoggedAll_example =
    log_task-LoggedAll whole view config (start whole view) two (omega arith, (omega arith, tt))
      (refl, (refl, tt)) (omega arith)
