-- ===== src/Latency/Runner/Negotiation.antt =====
-- How a test is opened, from two fresh runners to the handshake.
use niceperf.Prelude.{ℕ, ◌≤◌, ◌≡◌, refl, true, none, some, [], ◌∷◌, Bytes, length, take_short}
use niceperf.Prelude.Outcome.{ok}
use niceperf.Common.Os.{Answer}
use niceperf.Latency.Args.{Config, CommonOpts, UdpOpts, udp}
use niceperf.Latency.Protocol.{new_test, handshake, Codec, IsCodec}
use niceperf.Latency.Conn.{UdpLatency, SocketKind, ConnCtx, ctx_new}
use niceperf.Latency.Conn as Conn
use niceperf.Latency.Runner.{
  client, server, TestRunner, new, Opening, chunk, waiting, write, open_conn, negotiate,
  client_answer, server_answer,
}
use niceperf.Latency.Runner.Link.{Link, Reach}
use niceperf.Latency.Runner.Stages.{Inv, unheard, Reach-Inv}

abbrev pub udp_test : CommonOpts → UdpOpts → Config
udp_test common o = record { common_opts = common; proto = udp o }

-- An opening in which the write works and `bytes` are read.
abbrev pub hears : Bytes → Answer → Opening
hears bytes system = record { wrote = true; read = chunk bytes; system = system }

module _ (b : Codec) (h : IsCodec b) (id : ℕ) (common : CommonOpts) (o : UdpOpts) (system : Answer)
    (enc : Bytes) (code : b.serialize (new_test id (udp_test common o)) ≡ some enc) where
  abbrev pub client_socket : UdpLatency
  client_socket = record {
    kind = SocketKind.client;
    local = none;
    peer = some (o.dst_addr, o.dst_port);
  }

  abbrev pub server_socket : UdpLatency
  server_socket = record {
    kind = SocketKind.server;
    local = some (o.dst_addr, o.dst_port);
    peer = none;
  }

  -- The runners after the opening.
  abbrev pub opened_client : TestRunner
  opened_client = record (new client (some (udp_test common o)) (some id)) {
    ctx = some ctx_new;
    conn = some client_socket;
    written = enc ∷ [];
  }

  abbrev pub opened_server : TestRunner
  opened_server = record (new server none none) {
    test_cfg = some (udp_test common o);
    ctx = some ctx_new;
    conn = some server_socket;
    written = enc ∷ [];
  }

  -- A test over UDP is opened by one message each way: the server takes the client's configuration and
  -- sends it back, and binds its socket to the address that the client's socket sends to.
  pub negotiate-opened :
      length enc ≤ 1024
      → Conn.new SocketKind.client (o.dst_addr, o.dst_port) system ≡ ok client_socket
      → Conn.new SocketKind.server (o.dst_addr, o.dst_port) system ≡ ok server_socket
      → (negotiate b server (hears enc system) (new server none none) ≡ (ok tt, opened_server))
        × (negotiate b client (hears enc system) (new client (some (udp_test common o)) (some id))
            ≡ (ok tt, opened_client))
  unfolding negotiate client_answer server_answer write open_conn new
  negotiate-opened short mine theirs = (
    rw (
      take_short 1024 enc short,
      h.reads_back (new_test id (udp_test common o)) enc code,
      code,
      theirs,
    ),
    rw (
      code,
      take_short 1024 enc short,
      h.reads_back (new_test id (udp_test common o)) enc code,
      mine,
    ),
  )

  -- The two sides when both have come through the opening.
  abbrev pub opened_link : Link
  opened_link = record {
    client_side =
        (negotiate b client (hears enc system) (new client (some (udp_test common o)) (some id))).1;
    client_at = waiting;
    server_side = (negotiate b server (hears enc system) (new server none none)).1;
    server_at = waiting;
    to_client = [];
  }

  -- From two fresh runners that open a test over UDP, whatever ticks, packets and answers follow in
  -- whatever order, and whichever packets are lost or come again: no side fails but a server that has
  -- not heard a handshake for ten seconds, both keep the client's configuration, and the client is ready
  -- only if the server is. The sockets can be made, `bincode` encodes each of the two messages in 1024
  -- bytes at most, each is read at once, the streams stay open, and every write and every send succeeds.
  pub opened-Inv :
      (shake : Bytes) (l : Link)
      → length enc ≤ 1024
      → length shake ≤ 1024
      → Conn.new SocketKind.client (o.dst_addr, o.dst_port) system ≡ ok client_socket
      → Conn.new SocketKind.server (o.dst_addr, o.dst_port) system ≡ ok server_socket
      → b.serialize (handshake id) ≡ some shake
      → Reach b opened_link l
      → Inv id (udp_test common o) ctx_new ctx_new shake l
  opened-Inv shake l short_enc short mine theirs hand r =
      let (for_server, for_client) = negotiate-opened short_enc mine theirs in
      Reach-Inv b id (udp_test common o) ctx_new ctx_new shake hand
        (h.reads_back (handshake id) shake hand) short
        (rw (for_server, for_client)
          (unfold new in
            record {
              client_id = refl;
              client_cfg = refl;
              client_ctx = refl;
              server_cfg = refl;
              server_ctx = refl;
              queued = tt;
              stage = unheard refl refl refl;
            }))
        r
