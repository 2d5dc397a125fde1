-- ===== src/Latency/Control/Start.antt =====
-- What a client starts.
use Prim.Native.String.{String}
use niceperf.Prelude.{◌≡◌, refl, none, some, List, [], ◌⊎◌, inl, inr}
use niceperf.Prelude.Outcome.{Outcome, ok, err, panic, ◌>>=◌}
use niceperf.Common.Quic.{
  verify_server_cert, shows, Contact, client_connect, not_connected, QuicClient, ClientConfig,
  client_transport, Entry, missing, unreadable, holds, path_or_default, configure_client,
  client_new, from_os, Tools, Dir,
}
use niceperf.Common.Quic as Quic
use niceperf.Common.Sockets.{Socket, udp_new}
use niceperf.Common.Os
use niceperf.Latency.Args.{Config, Client, Modes}
use niceperf.Latency.Control.{
  Error, config_of, Surroundings, ctrl_client_new, client_run, client_main, Event, of_quic,
  panicked, main, exit, unwrap_result,
}

-- The file of the certificate is not there or cannot be read.
abbrev pub NoCertificate : Client → Surroundings → String → Type 0
NoCertificate args w directory =
    (w.read directory (path_or_default args.cert_path) ≡ missing)
    ⊎ (w.read directory (path_or_default args.cert_path) ≡ unreadable)

configure_client-missing :
    (args : Client) (w : Surroundings) (directory : String)
    → w.directory ≡ some directory
    → NoCertificate args w directory
    → configure_client args.cert_path w.directory w.read ≡ err Quic.no_file
unfolding configure_client
configure_client-missing args w directory here (inl e) = rw (here, e, configure_client)
configure_client-missing args w directory here (inr e) = rw (here, e, configure_client)

-- Without the file of the certificate no client gets to start a test: it panics, whatever its options are
-- and whatever else succeeds.
pub main_uncertified :
    (args : Client) (w : Surroundings) (directory : String) (t : Tools) (d : Dir) (es : List Event)
    → w.directory ≡ some directory
    → NoCertificate args w directory
    → main (Modes.client args) w t d es ≡ panicked
unfolding main client_main ctrl_client_new client_new
main_uncertified args w directory t d es here lacking =
    rw (configure_client-missing args w directory here lacking)
      (cases (config_of args.config_type w.contents w.parse) (udp_new none none w.system []).0)
  where
    cases :
        (c : Outcome Error Config) (s : Outcome Os.Error Socket)
        → exit (do
          config ← c
          q ← unwrap_result (do
            quinn ← of_quic {A = QuicClient} (do u ← from_os s; err Quic.no_file)
            of_quic (client_connect quinn (args.dst_addr, args.dst_port) w.contact))
          unwrap_result (client_run config w))
          ≡ panicked
    cases (err e) s = refl
    cases panic s = refl
    cases (ok c) (ok s) = refl
    cases (ok c) (err e) = refl
    cases (ok c) panic = refl
