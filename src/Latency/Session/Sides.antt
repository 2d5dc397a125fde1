-- ===== src/Latency/Session/Sides.antt =====
-- The runner of either side from its start to the end of its test.
use niceperf.Prelude.{
  ℕ, ◌≤◌, ◌<◌, ◌≡◌, refl, ap, ◌∙◌, true, false, none, some, List, [], ◌∷◌, ◌++◌, Bytes, All,
  replicate, length,
}
use niceperf.Prelude.Outcome.{ok}
use niceperf.Common.Os.{Answer}
use niceperf.Latency.Args.{CommonOpts, UdpOpts}
use niceperf.Latency.Protocol.{new_test, handshake, Codec, IsCodec}
use niceperf.Latency.Conn.{SocketKind, ctx_new}
use niceperf.Latency.Conn as Conn
use niceperf.Latency.Runner.{
  client, server, TestRunner, tick, control, packet, ended, new, setup, shake, after_opening,
}
use niceperf.Latency.Runner.Rounds.{shake-ticks, shake-control, shake-packet}
use niceperf.Latency.Runner.Negotiation.{
  udp_test, hears, client_socket, server_socket, opened_client, opened_server, negotiate-opened,
}
use niceperf.Latency.Test as Test
use niceperf.Latency.Test.Loop.{CanStart, Harmless, after, run-Harmless}
use niceperf.Latency.Session.{after_setup, life}

-- The options of a test that can run: packets of `n` bytes, and an interval.
pub record CanRun (common : CommonOpts) (n : ℕ) : Type 0 where
  pub interval : ℕ
  pub has_interval : common.interval ≡ some interval
  pub positive : 0 < interval
  pub has_len : common.len ≡ some n
  pub small : n ≤ 65535

module _ (b : Codec) (h : IsCodec b) (id : ℕ) (common : CommonOpts) (o : UdpOpts) (system : Answer)
    (enc : Bytes) (code : b.serialize (new_test id (udp_test common o)) ≡ some enc) where
  -- The two sockets of the test can be made, and its configuration fits the buffers of both sides.
  pub record CanOpen : Type 0 where
    pub fits : length enc ≤ 1024
    pub mine :
        Conn.new SocketKind.client (o.dst_addr, o.dst_port) system
        ≡ ok (client_socket b h id common o system enc code)
    pub theirs :
        Conn.new SocketKind.server (o.dst_addr, o.dst_port) system
        ≡ ok (server_socket b h id common o system enc code)

  abbrev fresh_client : TestRunner
  fresh_client = new client (some (udp_test common o)) (some id)

  abbrev fresh_server : TestRunner
  fresh_server = new server none none

  -- The runners when they are ready.
  abbrev ready_client : ℕ → Bytes → TestRunner
  ready_client k shake = record (opened_client b h id common o system enc code) {
    queued = replicate k shake;
  }

  abbrev ready_server : Bytes → TestRunner
  ready_server shake = record (opened_server b h id common o system enc code) {
    written = enc ∷ shake ∷ [];
  }

  -- A runner whose test has ended.
  abbrev pub tested : ℕ → TestRunner → List Test.Event → TestRunner
  tested n s es = record (after n s es) { test_cfg = none; ctx = some (record { stop = false }) }

  starts :
      (s : TestRunner) (n : ℕ)
      → CanRun common n
      → s.test_cfg ≡ some (udp_test common o)
      → CanStart s n
  starts s n c has = record {
    cfg = udp_test common o;
    interval = c.interval;
    has_cfg = has;
    has_interval = c.has_interval;
    positive = c.positive;
    has_len = c.has_len;
    small = c.small;
  }

  module _ (n : ℕ) (shake_code : Bytes) (runs : CanRun common n) (opens : CanOpen)
      (hand : b.serialize (handshake id) ≡ some shake_code) (short : length shake_code ≤ 1024) where
    read : b.deserialize shake_code ≡ some (handshake id)
    read = h.reads_back (handshake id) shake_code hand

    -- A client that ticks `k` times before its handshake comes back.
    pub life-client :
        (k : ℕ) (es : List Test.Event)
        → All (Harmless b client) es
        → life b
            (hears enc system)
            (replicate k (tick true) ++ control shake_code ∷ [])
            (es ++ Test.stop true ∷ [])
            fresh_client
          ≡ (ended (ok tt), tested n (ready_client k shake_code) es)
    unfolding life setup new ctx_new
    life-client k es harmless =
        let wakes = replicate k (tick true) ++ control shake_code ∷ [] in
        let test = Test.run b (es ++ Test.stop true ∷ []) in
        let ready = ready_client k shake_code in
        ap (λ r. after_setup (after_opening r (shake b client wakes)) test)
          (negotiate-opened b h id common o system enc code opens.fits opens.mine opens.theirs).1
        ∙ ap (λ r. after_setup r test)
            (shake-ticks b id shake_code (opened_client b h id common o system enc code) ctx_new k
                (control shake_code ∷ []) refl refl hand
              ∙ shake-control b ready id shake_code ctx_new (udp_test common o) refl refl refl read
                  short)
        ∙ run-Harmless b ready n ctx_new es [] (starts ready n runs refl) refl refl harmless

    -- A server whose first packet is the client's handshake.
    pub life-server :
        (es : List Test.Event)
        → All (Harmless b server) es
        → life b
            (hears enc system)
            (packet shake_code true ∷ [])
            (es ++ Test.stop true ∷ [])
            fresh_server
          ≡ (ended (ok tt), tested n (ready_server shake_code) es)
    unfolding life setup new ctx_new
    life-server es harmless =
        let test = Test.run b (es ++ Test.stop true ∷ []) in
        let ready = ready_server shake_code in
        ap (λ r. after_setup (after_opening r (shake b server (packet shake_code true ∷ []))) test)
          (negotiate-opened b h id common o system enc code opens.fits opens.mine opens.theirs).0
        ∙ ap (λ r. after_setup r test)
            (shake-packet b (opened_server b h id common o system enc code) id shake_code ctx_new
              (udp_test common o) refl refl hand read)
        ∙ run-Harmless b ready n ctx_new es [] (starts ready n runs refl) refl refl harmless
