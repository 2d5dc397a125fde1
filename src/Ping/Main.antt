-- ===== src/Ping/Main.antt =====
-- `main` of `ping` (ping/src/main.rs), from the options to how the program ends, with the end of `run` of
-- the three clients (ping/src/icmp.rs, udp.rs, tcp.rs): of the two tasks the one that ends first decides.
pub mod Silent
mod Runs
use Prim.Native.String.{String}
use niceperf.Prelude.{ℕ, Option, none, some, List, [], Bytes}
use niceperf.Prelude.Outcome.{Outcome, ok, err, panic}
use niceperf.Prelude.Words.{Profile}
use niceperf.Common.Os.{Answer}
use niceperf.Common.Os
use niceperf.Common.Sockets.{Socket}
use niceperf.Common.Statistics.{Float}
use niceperf.Ping.Args.{Modes, Protocol, tcp, udp, icmp}
use niceperf.Ping.Logger.{UdpEchoResult, TcpEchoResult}
use niceperf.Ping.Task.{Error, os, icmp_server, TaskEnd, waiting, ended}
use niceperf.Ping.Echo.{Bincode}
use niceperf.Ping.Echo as Echo
use niceperf.Ping.Icmp.{Etherparse, IcmpClient}
use niceperf.Ping.Icmp as Icmp
use niceperf.Ping.Udp.{UdpClient}
use niceperf.Ping.Udp as Udp
use niceperf.Ping.Tcp.{TcpClient}
use niceperf.Ping.Tcp as Tcp
use niceperf.Ping.Session.{icmp_send, udp_send, tcp_send}
use niceperf.Ping.Start.{
  Machine, icmp_client_new, udp_client_new, tcp_client_new, udp_server_new, tcp_server_new,
}

-- The task whose branch of the `select!` is taken.
pub data First : Type 0 where
  send_first recv_first : First

-- The `select!` at the end of `run`, by how the send task and the receive task stand: the result of the
-- one is dropped, the end of the other panics.
unfoldable pub select_tasks : First → TaskEnd → TaskEnd → TaskEnd
select_tasks send_first (ended result) recv = ended (ok tt)
select_tasks send_first waiting recv = waiting
select_tasks recv_first send (ended failure) = ended panic
select_tasks recv_first send waiting = waiting

-- What comes after a call under `?`.
abbrev pub on_ok : {A : Type 0} → Outcome Error A → (A → TaskEnd) → TaskEnd
on_ok (ok a) next = next a
on_ok (err e) next = ended (err e)
on_ok panic next = ended panic

abbrev pub on_new : {A : Type 0} → Outcome Os.Error A → (A → TaskEnd) → TaskEnd
on_new (ok a) next = next a
on_new (err e) next = ended (err (os e))
on_new panic next = ended panic

-- What the surroundings give: the machine and the system, the texts of the two addresses, what the tasks
-- of each client or server wait for, and which of a client's tasks ends first.
pub record World : Type 0 where
  pub machine : Machine
  pub system : Answer
  pub dst_addr : String
  pub src_addr : String
  pub icmp_rounds : List Icmp.Round
  pub icmp_events : List Icmp.Event
  pub echo_rounds : List Echo.Round
  pub udp_events : List Udp.Event
  pub tcp_events : List Tcp.Event
  pub udp_requests : List Udp.ServerEvent
  pub tcp_clients : List Tcp.Accept
  pub first : First

module _ {F : Type 0} (f : Float F) where
  -- The results that the receive tasks start with.
  abbrev pub no_udp_result : World → UdpEchoResult F
  no_udp_result w = record {
    seq = 0;
    send_timestamp = 0;
    server_timestamp = 0;
    recv_timestamp = 0;
    rtt = f.zero;
    size = 0;
    src_addr = w.src_addr;
    dst_addr = w.dst_addr;
  }

  abbrev pub no_tcp_result : World → String → TcpEchoResult F
  no_tcp_result w cc = record {
    seq = 0;
    send_timestamp = 0;
    server_timestamp = 0;
    recv_timestamp = 0;
    rtt = f.zero;
    size = 0;
    src_addr = w.src_addr;
    dst_addr = w.dst_addr;
    cc = cc;
    retrans = 0;
  }

  -- `ICMPClient::run`
  unfoldable pub icmp_run : Etherparse → Profile → IcmpClient → World → TaskEnd
  icmp_run e p c w = on_ok (Icmp.prepare p c) λ r.
      select_tasks w.first (icmp_send e r.0 w.icmp_rounds).0
        (Icmp.recv_task f e p r.0.identifier (Icmp.no_result f w.dst_addr w.src_addr)
          w.icmp_events).1

  module _ (b : Bincode) where
    -- `UDPClient::run`
    unfoldable pub udp_run : Profile → UdpClient → World → TaskEnd
    udp_run p c w = on_ok (Udp.prepare c) λ r.
        select_tasks w.first (udp_send b r.0 w.echo_rounds).0
          (Udp.recv_task f b p (no_udp_result w) w.udp_events).1

    -- `TCPClient::run`
    unfoldable pub tcp_run : Profile → TcpClient → World → TaskEnd
    tcp_run p c w = on_ok (Tcp.prepare c) λ r.
        select_tasks w.first (tcp_send b r.0 w.echo_rounds).0
          (Tcp.recv_task f b p (no_tcp_result w r.0.cc) w.tcp_events).1

    -- `main`
    unfoldable pub main : Etherparse → Profile → Modes → World → TaskEnd
    main e p (Modes.client (tcp o)) w =
        on_new (tcp_client_new w.machine o w.system []).0 (λ c. tcp_run p c w)
    main e p (Modes.client (udp o)) w =
        on_new (udp_client_new w.machine o w.system []).0 (λ c. udp_run p c w)
    main e p (Modes.client (icmp o)) w =
        on_new (icmp_client_new w.machine o w.system []).0 (λ c. icmp_run e p c w)
    main e p (Modes.server (tcp o)) w =
        on_new (tcp_server_new o w.system []).0 (λ s. (Tcp.run f b p w.tcp_clients).1)
    main e p (Modes.server (udp o)) w = on_new (udp_server_new o w.system []).0 (λ s.
        (Udp.run b
          (record { local = (o.common_opts.dst_addr, o.dst_port); answers = []; handlers = [] })
          w.udp_requests).1)
    main e p (Modes.server (icmp o)) w = ended (err icmp_server)
