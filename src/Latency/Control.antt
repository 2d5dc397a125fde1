-- ===== src/Latency/Control.antt =====
-- The control server and client (latency/src/main.rs), which start the runners and stop them. QUIC, the
-- signals and the files are inputs.
pub mod Shutdown
pub mod Start
use Prim.Native.String.{String}
use niceperf.Prelude.{
  ℕ, zero, suc, ◌+◌, Bool, true, false, Option, none, some, List, [], ◌∷◌, ◌++◌, Bytes,
  if◌then◌else◌,
}
use niceperf.Prelude.Outcome.{Outcome, ok, err, panic, unwrap, require, ◌>>=◌, ◌>>◌}
use niceperf.Common.Os.{IpAddr, Answer}
use niceperf.Common.Quic.{
  QuicClient, QuicServer, Connection, Contact, client_new, client_connect, server_new,
  configure_client, Entry, Dir, Tools,
}
use niceperf.Common.Quic as Quic
use niceperf.Latency.Args.{Config, ConfigType, file, protocol, Client, Server, Modes}
use niceperf.Latency.Runner as Runner
use niceperf.Latency.Runner.{TestRunner, Opening, Wake, client, server}
use niceperf.Latency.Protocol.{Codec}
use niceperf.Latency.Session.{life}
use niceperf.Latency.Test as Test

pub data Error : Type 0 where
  connection stream : Error
  quic : Quic.Error → Error

-- The configuration of `client`: the options', or a file's, which must open and parse.
unfoldable pub config_of :
    ConfigType → (String → Option Bytes) → (Bytes → Option Config) → Outcome Error Config
config_of (file path) contents parse = do
  config_file ← unwrap (contents path)
  config ← unwrap (parse config_file)
  ok (record { proto = config.proto; common_opts = config.common_opts })
config_of (protocol proto common_opts) contents parse =
    ok (record { proto = proto; common_opts = common_opts })

-- `ClientCtx`: whether its stop has not been taken yet. The runner that it belongs to stands with it.
pub record ClientCtx : Type 0 where
  pub stop : Bool
  pub runner : TestRunner

pub record CtrlServer : Type 0 where
  pub quinn : QuicServer
  pub clients : List ClientCtx

-- What wakes `CtrlServer::run`: a client, by whether its handshake and its stream succeed, or Ctrl-C, by
-- which of the clients' tasks still run.
pub data Event : Type 0 where
  connecting : Bool → Bool → Event
  ctrl_c : (ℕ → Bool) → Event

pub data Progress : Type 0 where
  waiting : Progress
  ended : Outcome Error (Unit {0}) → Progress

abbrev pub succeeds : Bool → Error → Outcome Error (Unit {0})
succeeds true e = ok tt
succeeds false e = err e

-- `handle_client`
unfoldable pub handle_client : CtrlServer → CtrlServer
handle_client s = record s {
  clients = s.clients ++ record { stop = true; runner = Runner.new server none none } ∷ [];
}

unfoldable pub accept : CtrlServer → Bool → Bool → Outcome Error CtrlServer
accept s connects opens = do
  succeeds connects connection
  succeeds opens stream
  ok (handle_client s)

-- `client.stop.take().unwrap().send(()).unwrap()` of each client in turn; `i` is the first one's number.
unfoldable pub stop_all : ℕ → (ℕ → Bool) → List ClientCtx → Outcome Error (List ClientCtx)
stop_all i running [] = ok []
stop_all i running (c ∷ cs) = do
  require c.stop
  require (running i)
  rest ← stop_all (i + 1) running cs
  ok (record c { stop = false } ∷ rest)

abbrev pub after_accept :
    Outcome Error CtrlServer
    → CtrlServer
    → (CtrlServer → Progress × CtrlServer)
    → Progress × CtrlServer
after_accept (ok s') s next = next s'
after_accept (err e) s next = (ended (err e), s)
after_accept panic s next = (ended panic, s)

abbrev pub after_stop : Outcome Error (List ClientCtx) → CtrlServer → Progress × CtrlServer
after_stop (ok clients) s = (ended (ok tt), record s { clients = clients })
after_stop (err e) s = (ended (err e), s)
after_stop panic s = (ended panic, s)

-- `CtrlServer::run`
unfoldable pub run : List Event → CtrlServer → Progress × CtrlServer
run [] s = (waiting, s)
run (connecting connects opens ∷ es) s = after_accept (accept s connects opens) s (λ s'. run es s')
run (ctrl_c running ∷ es) s = after_stop (stop_all 0 running s.clients) s

-- A server that has no clients yet.
abbrev pub started : QuicServer → CtrlServer
started quinn = record { quinn = quinn; clients = [] }

-- `.unwrap()` of a result.
abbrev pub unwrap_result : {E F A : Type 0} → Outcome E A → Outcome F A
unwrap_result (ok a) = ok a
unwrap_result (err e) = panic
unwrap_result panic = panic

-- `CtrlServer::new`, of what `QuicServer::new` gives.
unfoldable pub new : Outcome Quic.Error QuicServer → Outcome Error CtrlServer
new r = do quinn ← unwrap_result r; ok (started quinn)

-- What the surroundings give the task of a client's runner, as far as it has come: its opening, what wakes
-- its handshake, and what happens in its test.
pub record Task : Type 0 where
  pub opening : Opening
  pub wakes : List Wake
  pub events : List Test.Event

-- How `CtrlClient::run` stands: its task is at work, or has ended, or has been stopped.
pub data ClientRun : Type 0 where
  testing : TestRunner → ClientRun
  finished : TestRunner → ClientRun
  stopped : TestRunner → ClientRun

-- The `select!` between the task, which may have ended in any way, and Ctrl-C, by whether it comes: its
-- stop cannot be sent to a task that has ended.
unfoldable pub select_task : Runner.Progress × TestRunner → Bool → Outcome Error ClientRun
select_task (Runner.waiting, s) false = ok (testing s)
select_task (Runner.waiting, s) true = ok (stopped s)
select_task (Runner.ended r, s) false = ok (finished s)
select_task (Runner.ended r, s) true = panic

-- What the surroundings of a client give: how a message is encoded, the files and what they parse to, the
-- directory it runs in, the system's answers, whether the endpoint is made and bound again, what is at the
-- server's address, whether a stream opens, the connection's id, what its task meets, and whether Ctrl-C
-- comes then.
pub record Surroundings : Type 0 where
  pub codec : Codec
  pub contents : String → Option Bytes
  pub parse : Bytes → Option Config
  pub directory : Option String
  pub read : String → String → Entry
  pub system : Answer
  pub endpoint : Bool
  pub rebind : Bool
  pub contact : Contact
  pub opens : Bool
  pub stable_id : ℕ
  pub task : Task
  pub interrupted : Bool

-- `CtrlClient::run`
unfoldable pub client_run : Config → Surroundings → Outcome Error ClientRun
client_run test_cfg w = do
  succeeds w.opens stream
  let runner = Runner.new client (some test_cfg) (some w.stable_id)
  select_task (life w.codec w.task.opening w.task.wakes w.task.events runner) w.interrupted

abbrev pub of_quic : {A : Type 0} → Outcome Quic.Error A → Outcome Error A
of_quic (ok a) = ok a
of_quic (err e) = err (quic e)
of_quic panic = panic

-- `CtrlClient::new`
unfoldable pub ctrl_client_new :
    Option (IpAddr × ℕ)
    → Option String
    → Option String
    → IpAddr × ℕ
    → Surroundings
    → Outcome Error Connection
ctrl_client_new bind_addr bind_iface cert_path server_addr w = do
  quinn ← of_quic (
      client_new bind_iface bind_addr (configure_client cert_path w.directory w.read) w.system
        w.endpoint w.rebind)
  of_quic (client_connect quinn server_addr w.contact)

-- `client`
unfoldable pub client_main : Client → Surroundings → Outcome Error ClientRun
client_main args w = do
  config ← config_of args.config_type w.contents w.parse
  quinn ← unwrap_result (
      ctrl_client_new none config.common_opts.iface args.cert_path (args.dst_addr, args.dst_port) w)
  unwrap_result (client_run config w)

-- How the program stands.
pub data Main : Type 0 where
  serving : CtrlServer → Main
  busy : TestRunner → Main
  returned : Main
  panicked : Main

abbrev pub served : Progress × CtrlServer → Main
served (waiting, s) = serving s
served (ended (ok u), s) = returned
served (ended (err e), s) = panicked
served (ended panic, s) = panicked

abbrev pub serve : Outcome Error CtrlServer → List Event → Main
serve (ok s) es = served (run es s)
serve (err e) es = panicked
serve panic es = panicked

abbrev pub exit : Outcome Error ClientRun → Main
exit (ok (testing s)) = busy s
exit (ok (finished s)) = returned
exit (ok (stopped s)) = returned
exit (err e) = panicked
exit panic = panicked

-- `main`: a server has the tools of its certificate, its directory and what wakes it besides.
unfoldable pub main : Modes → Surroundings → Tools → Dir → List Event → Main
main (Modes.server args) w t d es =
    serve (new (server_new t (args.listen_addr, args.listen_port) w.system w.endpoint d).0) es
main (Modes.client args) w t d es = exit (client_main args w)
