-- ===== src/Ping/Start/Runs.antt =====
-- Clients and a server that start on a machine that allows all calls.
use niceperf.Prelude.{◌≡◌, refl, true, false, none, some, [], ◌∷◌, ◌++◌}
use niceperf.Prelude.Outcome.{ok}
use niceperf.Common.Os.{v4, ipv4, stream, tcp, Answer, Trace, set_nonblocking, connect}
use niceperf.Common.Sockets.{tcp_new, tcp_connect, bind_to_device}
use niceperf.Common.Sockets.Setup.{udp_plan, tcp_plan}
use niceperf.Common.Sockets.Configured.{blank, configured}
use niceperf.Ping.Args.{CommonOpts, TcpOpts, UdpOpts}
use niceperf.Ping.Udp.{UdpClient}
use niceperf.Ping.Tcp.{TcpClient}
use niceperf.Ping.Start.{Machine, source_addr, tcp_client_new}
use niceperf.Ping.Start.Configured.{tcp_client_new-configured}

abbrev accepting : Answer
accepting t c = none

abbrev machine : Machine
machine = record { interfaces = []; create_log = λ file. none; identifier = 9 }

abbrev opts : CommonOpts
opts = record {
  len = some 64;
  interval = some 1000;
  count = some 5;
  iface = some "eth0";
  duration = none;
  file = some "out.csv";
  preload = some 1;
  log = some true;
  dst_addr = v4 2;
  src_addr = some (v4 7);
}

abbrev udp_opts : UdpOpts
udp_opts = record { common_opts = opts; dst_port = 5000; src_port = none }

abbrev tcp_opts : TcpOpts
tcp_opts = record {
  common_opts = opts;
  dst_port = 5000;
  src_port = some 4000;
  cc = some "cubic";
  mss = some 1400;
}

abbrev udp_client : UdpClient
udp_client = record {
  common = opts;
  src_addr = v4 7;
  dst_addr = v4 2;
  identifier = 9;
  has_logger = true;
}

abbrev tcp_client : TcpClient
tcp_client = record {
  common = opts;
  src_addr = v4 7;
  dst_addr = v4 2;
  identifier = 9;
  has_logger = true;
  cc = "cubic";
}

abbrev udp_calls : Trace
udp_calls = udp_plan (some "eth0") (some (v4 7, 0)) ++ connect (v4 2) 5000 ∷ []

abbrev tcp_calls : Trace
tcp_calls =
    tcp_plan (some "eth0") (some (v4 7, 4000)) (some 1400) (some "cubic")
    ++ set_nonblocking false ∷ connect (v4 2) 5000 ∷ set_nonblocking true ∷ []

tcp_client_new-configured_example :
    (source_addr [] opts ≡ ok (v4 7))
    × (configured tcp_calls ≡ record blank {
      opened = some (ipv4, stream, some tcp);
      nonblocking = true;
      device = some "eth0";
      local = some (v4 7, 4000);
      peer = some (v4 2, 5000);
      mss = some 1400;
      nodelay = true;
      quickack = true;
      congestion = some "cubic";
    })
unfolding tcp_client_new source_addr tcp_new tcp_connect bind_to_device
tcp_client_new-configured_example =
    tcp_client_new-configured machine tcp_opts accepting tcp_client tcp_calls refl
