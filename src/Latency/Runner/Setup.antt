-- ===== src/Latency/Runner/Setup.antt =====
-- What both halves of the setup need, on either side.
use niceperf.Prelude.{ℕ, ◌≡◌, refl, ap, ◌∙◌, Bool, Option, none, some, List, Bytes, arith}
use mathlib.Core.Path.{subst}
use niceperf.Prelude.Outcome.{Outcome, ok, err, panic, unwrap}
use niceperf.Common.Os.{Answer}
use niceperf.Latency.Args.{Config, ProtocolType, UdpOpts, tcp, udp, quic}
use niceperf.Latency.Protocol.{MessageType, new_test, handshake, error, Codec}
use niceperf.Latency.Runner.{
  Side, client, server, Error, TestRunner, Wake, Progress, ended, write, shake, Opening, Read,
  chunk, failed, finished, received_chunk, cut, Act, lift, continue, ◌>>=◌, open_conn, negotiate,
  client_answer, server_answer, setup, after_opening,
}
use niceperf.Latency.Runner.Ready.{IsReady, shake-IsReady}

received_chunk-ok :
    (r : Read) (bytes : Bytes)
    → received_chunk r ≡ ok bytes
    → (raw : Bytes) × (r ≡ chunk raw) × (cut raw ≡ bytes)
received_chunk-ok (chunk c) bytes e =
    (c, refl, ap (λ o. elim o [ ok x ↦ x | err x ↦ bytes | panic ↦ bytes ]) e)
received_chunk-ok failed bytes e = absurd (ground arith)
received_chunk-ok finished bytes e = absurd (ground arith)

unwrap-ok :
    {A : Type 0} (x : Option A) (a : A) → ◌≡◌ {A = Outcome Error A} (unwrap x) (ok a) → x ≡ some a
unwrap-ok none a e = absurd (ground arith)
unwrap-ok (some y) a e = ground arith

module _ (b : Codec) where
  -- The answer that opened the test.
  pub record IsOpened (o : Opening) : Type 0 where
    pub bytes : Bytes
    pub n : ℕ
    pub cfg : Config
    pub opts : UdpOpts
    pub heard : o.read ≡ chunk bytes
    pub read : b.deserialize (cut bytes) ≡ some (new_test n cfg)
    pub over_udp : cfg.proto ≡ udp opts

  open_conn-udp :
      (side : Side) (p : ProtocolType) (system : Answer) (s : TestRunner)
      → (open_conn side p system s).0 ≡ ok tt
      → ((opts : UdpOpts) × (p ≡ udp opts)) × ((open_conn side p system s).1.id ≡ s.id)
  unfolding open_conn
  open_conn-udp side (tcp o) system s h = absurd (ground arith)
  open_conn-udp side (quic o) system s h = absurd (ground arith)
  open_conn-udp side (udp o) system s h = ((o, refl), ground arith)

  abbrev Opened : Opening → TestRunner → Outcome Error (Unit {0}) × TestRunner → Type 0
  Opened o s (r, s') = r ≡ ok tt → IsOpened o × (s'.id ≡ s.id)

  continue-Opened :
      {A : Type 0} (o : Opening) (s₀ : TestRunner) (r : Outcome Error A × TestRunner)
      (f : A → Act (Unit {0}))
      → ((a : A) → r.0 ≡ ok a → Opened o s₀ (f a r.1))
      → Opened o s₀ (continue r.0 f r.1)
  continue-Opened o s₀ (ok a, s) f rest = rest a refl
  continue-Opened o s₀ (err e, s) f rest = λ h. absurd (ground arith)
  continue-Opened o s₀ (panic, s) f rest = λ h. absurd (ground arith)

  -- A chain opens a test if what follows its first step does.
  bind-Opened :
      {A : Type 0} (o : Opening) (s₀ : TestRunner) (m : Act A) (f : A → Act (Unit {0}))
      (s : TestRunner)
      → ((a : A) → (m s).0 ≡ ok a → Opened o s₀ (f a (m s).1))
      → Opened o s₀ ((m >>= f) s)
  bind-Opened o s₀ m f s = continue-Opened o s₀ (m s) f

  write-id : (m : MessageType) (wrote : Bool) (s : TestRunner) → (write b m wrote s).1.id ≡ s.id
  unfolding write
  write-id m wrote s = ground arith

  agreed :
      (side : Side) (o : Opening) (bytes : Bytes) (n : ℕ) (cfg : Config) (s s₀ : TestRunner)
      → o.read ≡ chunk bytes
      → b.deserialize (cut bytes) ≡ some (new_test n cfg)
      → s.id ≡ s₀.id
      → Opened o s₀ (open_conn side cfg.proto o.system s)
  agreed side o bytes n cfg s s₀ heard read same h =
      let ((opts, over), kept) = open_conn-udp side cfg.proto o.system s h in
      (
        record {
          bytes = bytes;
          n = n;
          cfg = cfg;
          opts = opts;
          heard = heard;
          read = read;
          over_udp = over;
        },
        kept ∙ same,
      )

  client_answer-Opened :
      (o : Opening) (bytes : Bytes) (m : MessageType) (s s₀ : TestRunner)
      → o.read ≡ chunk bytes
      → b.deserialize (cut bytes) ≡ some m
      → s.id ≡ s₀.id
      → Opened o s₀ (client_answer m o.system s)
  unfolding client_answer
  client_answer-Opened o bytes (handshake i) s s₀ heard read same = λ h. absurd (ground arith)
  client_answer-Opened o bytes (error e) s s₀ heard read same = λ h. absurd (ground arith)
  client_answer-Opened o bytes (new_test n cfg) s s₀ heard read same =
      agreed client o bytes n cfg s s₀ heard read same

  server_answer-Opened :
      (o : Opening) (bytes : Bytes) (m : MessageType) (s : TestRunner)
      → o.read ≡ chunk bytes
      → b.deserialize (cut bytes) ≡ some m
      → Opened o s (server_answer b m o s)
  unfolding server_answer
  server_answer-Opened o bytes (handshake i) s heard read = λ h. absurd (ground arith)
  server_answer-Opened o bytes (error e) s heard read = λ h. absurd (ground arith)
  server_answer-Opened o bytes (new_test n cfg) s heard read =
      let s₁ = record s { test_cfg = some cfg } in
      bind-Opened o s (write b (new_test n cfg) o.wrote) _ s₁ (λ u wrote.
        agreed server o bytes n cfg (write b (new_test n cfg) o.wrote s₁).1 s heard read
          (write-id (new_test n cfg) o.wrote s₁))

  negotiate-Opened :
      (side : Side) (o : Opening) (s : TestRunner) → Opened o s (negotiate b side o s)
  unfolding negotiate
  negotiate-Opened server o s = bind-Opened o s (lift (received_chunk o.read)) _ s (λ bytes got.
      bind-Opened o s (lift (unwrap (b.deserialize bytes))) _ s (λ m read.
        let (raw, heard, same) = received_chunk-ok o.read bytes got in
        server_answer-Opened o raw m s heard
          (ap b.deserialize same ∙ unwrap-ok (b.deserialize bytes) m read)))
  negotiate-Opened client o s = bind-Opened o s (lift (unwrap s.id)) _ s (λ id known.
      bind-Opened o s (lift (unwrap s.test_cfg)) _ s (λ cfg config.
        bind-Opened o s (write b (new_test id cfg) o.wrote) _ s (λ u wrote.
          let s₁ = (write b (new_test id cfg) o.wrote s).1 in
          bind-Opened o s (lift (received_chunk o.read)) _ s₁ (λ bytes got.
            bind-Opened o s (lift (unwrap (b.deserialize bytes))) _ s₁ (λ m read.
              let (raw, heard, same) = received_chunk-ok o.read bytes got in
              client_answer-Opened o raw m s₁ s heard
                (ap b.deserialize same ∙ unwrap-ok (b.deserialize bytes) m read)
                (write-id (new_test id cfg) o.wrote s))))))

  after_opening-ok :
      (r : Outcome Error (Unit {0}) × TestRunner) (next : TestRunner → Progress × TestRunner)
      (s' : TestRunner)
      → after_opening r next ≡ (ended (ok tt), s')
      → (r.0 ≡ ok tt) × (next r.1 ≡ (ended (ok tt), s'))
  after_opening-ok (ok u, s) next s' e = (refl, e)
  after_opening-ok (err x, s) next s' e = absurd (ground arith)
  after_opening-ok (panic, s) next s' e = absurd (ground arith)

  -- A runner that becomes ready has read a test over UDP as the answer that opens it, has a
  -- configuration and a connection, and was woken at last by a handshake: the client by its own that
  -- came back on the control stream, the server by any that came over the connection.
  pub setup-IsReady :
      (o : Opening) (ws : List Wake) (s s' : TestRunner)
      → setup b o ws s ≡ (ended (ok tt), s')
      → IsOpened o × IsReady b s.side s.id ws s'
  unfolding setup
  setup-IsReady o ws s s' e =
      let (fine, rest) =
        after_opening-ok (negotiate b s.side o s) (λ q. shake b s.side ws q) s' e in
      let (started, kept) = negotiate-Opened s.side o s fine in
      (
        started,
        subst (λ i. IsReady b s.side i ws s') kept
            (shake-IsReady b s.side ws (negotiate b s.side o s).1 s' rest),
      )
