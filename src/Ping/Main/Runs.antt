-- ===== src/Ping/Main/Runs.antt =====
-- A run of `main` with a payload that is too short.
use niceperf.Prelude.{none, some, [], ◌∷◌, true, false}
use niceperf.Common.Os.{v4, Answer}
use niceperf.Ping.Args.{IcmpOpts}
use niceperf.Ping.Task.{gave}
use niceperf.Ping.Icmp.{Etherparse, IcmpClient}
use niceperf.Ping.Main.{World, send_first}

abbrev no_headers : Etherparse
no_headers = record { request_header = λ id seq payload. []; from_slice = λ bytes. none }

abbrev accepting : Answer
accepting t c = none

abbrev thirty : IcmpOpts
thirty = record {
  common_opts = record {
    len = some 30;
    interval = some 1000;
    count = some 2;
    iface = none;
    duration = none;
    file = none;
    preload = some 1;
    log = some true;
    dst_addr = v4 1;
    src_addr = some (v4 2);
  };
}

abbrev client : IcmpClient
client = record {
  common = thirty.common_opts;
  src_addr = v4 2;
  dst_addr = v4 1;
  identifier = 700;
  has_logger = false;
}

abbrev world : World
world = record {
  machine = record { interfaces = []; create_log = λ path. none; identifier = 700 };
  system = accepting;
  dst_addr = "10.0.0.1";
  src_addr = "10.0.0.2";
  icmp_rounds = record { clock = gave 5; send = gave 30 } ∷ [];
  icmp_events = [];
  echo_rounds = [];
  udp_events = [];
  tcp_events = [];
  udp_requests = [];
  tcp_clients = [];
  first = send_first;
}
