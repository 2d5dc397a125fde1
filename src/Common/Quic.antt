-- ===== src/Common/Quic.antt =====
-- The QUIC endpoints (common/src/lib.rs): the server's certificate, kept in two files, and the
-- configurations of both ends. `rcgen`, `rustls`, `quinn` and the file system are parameters.
pub mod Certificate
mod Runs
use Prim.Native.String.{String}
use niceperf.Prelude.{if◌then◌else◌, ℕ, Bool, true, false, Option, none, some, List, [], Bytes}
use niceperf.Prelude.Outcome.{Outcome, ok, err, panic, unwrap, require}
use niceperf.Prelude.Outcome as Outcome
use niceperf.Common.Os.{IpAddr, v4, Answer}
use niceperf.Common.Os
use niceperf.Common.Sockets.{Socket, udp_new}

pub data Error : Type 0 where
  os : Os.Error → Error
  no_file no_directory bad_certificate no_endpoint not_connected : Error

-- What `std::fs::read` finds.
pub data Entry : Type 0 where
  missing unreadable : Entry
  holds : Bytes → Entry

-- `./cert.der` and `./key.der`
pub record Dir : Type 0 where
  pub cert : Entry
  pub key : Entry

-- The limits that both configurations set.
pub record Transport : Type 0 where
  pub max_concurrent_uni_streams : ℕ
  pub max_concurrent_bidi_streams : ℕ
  pub datagram_receive_buffer_size : Option ℕ
  pub send_window : Option ℕ
  pub bbr : Bool
  pub max_idle_timeout : Option ℕ

pub record ServerConfig : Type 0 where
  pub cert_chain : Bytes
  pub private_key : Bytes
  pub transport : Transport

-- What a server shows in the handshake: its certificate and those between it and a root, the name it was
-- called by, the timestamps and the status that come with it, and the time.
pub record Shown : Type 0 where
  pub end_entity : Bytes
  pub intermediates : List Bytes
  pub server_name : String
  pub scts : List Bytes
  pub ocsp_response : Bytes
  pub now : ℕ

-- `SkipServerVerification`, whose method gets all of this.
unfoldable pub verify_server_cert : Shown → Outcome Error (Unit {0})
verify_server_cert s = ok tt

pub record ClientConfig : Type 0 where
  pub verifier : Shown → Outcome Error (Unit {0})
  pub key_log : Bool
  pub transport : Transport

abbrev pub server_transport : Transport
server_transport = record {
  max_concurrent_uni_streams = 32;
  max_concurrent_bidi_streams = 32;
  datagram_receive_buffer_size = some 65535;
  send_window = none;
  bbr = true;
  max_idle_timeout = none;
}

-- What the surroundings give: a new certificate with its key, whether the files can be written, and
-- whether `rustls` takes a certificate with a key.
pub record Tools : Type 0 where
  pub generate : Option (Bytes × Bytes)
  pub writes_cert : Bool
  pub writes_key : Bool
  pub accepts : Bytes → Bytes → Bool

abbrev pub Act : Type 0 → Type 0
Act A = Dir → Outcome Error A × Dir

module _ {A B : Type 0} where
  abbrev pub continue : Outcome Error A → (A → Act B) → Act B
  continue (ok a) f d = f a d
  continue (err e) f d = (err e, d)
  continue panic f d = (panic, d)

  infixl 5 ◌>>=◌
  abbrev pub ◌>>=◌ : Act A → (A → Act B) → Act B
  ◌>>=◌ m f d = continue (m d).0 f (m d).1

module _ {A : Type 0} where
  abbrev pub pure : A → Act A
  pure a d = (ok a, d)

  abbrev pub lift : Outcome Error A → Act A
  lift r d = (r, d)

module _ {B : Type 0} where
  infixl 5 ◌>>◌
  abbrev pub ◌>>◌ : Act (Unit {0}) → Act B → Act B
  m >> k = m >>= λ _. k

abbrev pub set_cert : Bytes → Act (Unit {0})
set_cert bytes d = (ok tt, record d { cert = holds bytes })

abbrev pub set_key : Bytes → Act (Unit {0})
set_key bytes d = (ok tt, record d { key = holds bytes })

-- The arm of a file that is not found: a new pair, written to both files.
unfoldable pub generate_pair : Tools → Act (Bytes × Bytes)
generate_pair t = do
  pair ← lift (unwrap t.generate)
  lift (require t.writes_cert)
  set_cert pair.0
  lift (require t.writes_key)
  set_key pair.1
  pure pair

-- The two reads and the three arms: both are read, one is not found, or a read fails otherwise.
unfoldable pub load_pair : Tools → Entry → Entry → Act (Bytes × Bytes)
load_pair t (holds cert) (holds key) = pure (cert, key)
load_pair t (holds cert) missing = generate_pair t
load_pair t (holds cert) unreadable = lift panic
load_pair t missing key = generate_pair t
load_pair t unreadable key = lift panic

unfoldable pub with_single_cert : Tools → Bytes → Bytes → Outcome Error ServerConfig
with_single_cert t cert key = elim (t.accepts cert key) [
  | true ↦ ok (record { cert_chain = cert; private_key = key; transport = server_transport })
  | false ↦ err bad_certificate
]

-- `configure_server`
unfoldable pub configure_server : Tools → Act (ServerConfig × Bytes)
configure_server t d =
    (do
      pair ← load_pair t d.cert d.key
      server_config ← lift (with_single_cert t pair.0 pair.1)
      pure (server_config, pair.0))
      d

abbrev pub client_transport : Transport
client_transport = record server_transport { send_window = some 32500 }

-- `cert_path.unwrap_or("cert.der")`
abbrev pub path_or_default : Option String → String
path_or_default none = "cert.der"
path_or_default (some path) = path

-- `configure_client`: the certificate's path, the current directory if it is known, and what the read of a
-- path finds.
unfoldable pub configure_client :
    Option String → Option String → (String → String → Entry) → Outcome Error ClientConfig
configure_client cert_path none read = err no_directory
configure_client cert_path (some directory) read =
    elim (read directory (path_or_default cert_path)) [
      | holds bytes ↦
          ok
            (record { verifier = verify_server_cert; key_log = true; transport = client_transport })
      | missing ↦ err no_file
      | unreadable ↦ err no_file
    ]

-- `QuicClient` and `QuicServer`: the configuration, the socket, and what the endpoint is first bound to.
pub record QuicClient : Type 0 where
  pub config : ClientConfig
  pub socket : Socket
  pub bound : IpAddr × ℕ

pub record QuicServer : Type 0 where
  pub config : ServerConfig
  pub socket : Socket
  pub bound : IpAddr × ℕ

abbrev pub from_os : Outcome Os.Error Socket → Outcome Error Socket
from_os (ok s) = ok s
from_os (err e) = err (os e)
from_os panic = panic

abbrev pub opened : Bool → Outcome Error (Unit {0})
opened true = ok tt
opened false = err no_endpoint

-- `QuicClient::new`: neither the interface nor, once the endpoint is bound again to the socket, the
-- address is used. `endpoint` and `rebind` are whether quinn's calls succeed.
unfoldable pub client_new :
    Option String
    → Option (IpAddr × ℕ)
    → Outcome Error ClientConfig
    → Answer
    → Bool
    → Bool
    → Outcome Error QuicClient
client_new bind_interface bind_address config system endpoint rebind =
    Outcome.◌>>=◌ (from_os (udp_new none none system []).0) λ s. Outcome.◌>>=◌ config λ c.
      Outcome.◌>>=◌ (opened endpoint) λ _. Outcome.◌>>=◌ (opened rebind) λ _. ok (record {
        config = c;
        socket = s;
        bound = elim bind_address [ none ↦ (v4 0, 0) | some addr ↦ addr ];
      })

-- What quinn finds at an address: the call fails at once or no one answers, or a server that shows a
-- certificate, which the configuration's verifier takes or not; then rustls itself checks the signature
-- of the handshake with it, whose outcome is the Bool.
pub data Contact : Type 0 where
  unreached : Contact
  shows : Bool → Bytes → List Bytes → List Bytes → Bytes → ℕ → Contact

pub record Connection : Type 0 where
  pub remote : IpAddr × ℕ
  pub server_name : String

-- `QuicClient::connect`: every server is called "localhost".
unfoldable pub client_connect : QuicClient → IpAddr × ℕ → Contact → Outcome Error Connection
client_connect client server_addr unreached = err not_connected
client_connect client server_addr (shows signed end_entity intermediates scts ocsp_response now) =
    Outcome.◌>>=◌
      (client.config.verifier (record {
        end_entity = end_entity;
        intermediates = intermediates;
        server_name = "localhost";
        scts = scts;
        ocsp_response = ocsp_response;
        now = now;
      }))
      λ u.
        if signed
        then ok (record { remote = server_addr; server_name = "localhost" })
        else err not_connected

-- `QuicServer::new`: the endpoint has a socket of its own, and the other one is only kept.
unfoldable pub server_new : Tools → IpAddr × ℕ → Answer → Bool → Act QuicServer
server_new t addr system endpoint = do
  socket ← lift (from_os (udp_new none none system []).0)
  configured ← configure_server t
  lift (opened endpoint)
  pure (record { config = configured.0; socket = socket; bound = addr })
