-- ===== src/Latency/Runner/Ready.antt =====
-- What a runner needs to have heard to be ready.
use mathlib.Core.Path.{subst}
use niceperf.Prelude.{
  ℕ, ◌≡◌, refl, ap, ◌∙◌, Bool, true, false, Option, some, List, [], ◌∷◌, ◌++◌, Bytes, arith,
  Option-cases, ◌⊎◌, inl, inr,
}
use niceperf.Prelude.Outcome.{Outcome, ok, err, panic}
use niceperf.Latency.Args.{Config}
use niceperf.Latency.Protocol.{MessageType, new_test, handshake, error, Codec}
use niceperf.Latency.Conn.{ConnCtx, ctx_send}
use niceperf.Latency.Runner.{
  cut, Side, client, server, Error, TestRunner, Wake, tick, timeout, control, packet, Progress,
  ended, write, queue, client_hears, server_hears, round, finish, shake, after_wake,
}

module _ (b : Codec) where
  -- The event at which a side is done: its own handshake comes back to the client, any handshake comes to
  -- the server and the answer can be written.
  pub data Completes (id : Option ℕ) : Side → Wake → Type 0 where
    own_back :
        (bytes : Bytes) (n : ℕ)
        → id ≡ some n
        → b.deserialize (cut bytes) ≡ some (handshake n)
        → Completes id client (control bytes)
    any_heard :
        (bytes : Bytes) (n : ℕ)
        → b.deserialize bytes ≡ some (handshake n)
        → Completes id server (packet bytes true)

  round-id : (side : Side) (w : Wake) (s : TestRunner) → (round b side w s).1.id ≡ s.id
  unfolding round queue ctx_send write client_hears server_hears
  round-id client (tick listening) s = ground arith
  round-id client (control bytes) s = ground arith
  round-id client (packet bytes wrote) s = refl
  round-id client timeout s = refl
  round-id server (tick listening) s = refl
  round-id server (control bytes) s = refl
  round-id server (packet bytes wrote) s = ground arith
  round-id server timeout s = refl

  client_hears-true :
      (m : MessageType) (s : TestRunner)
      → (client_hears m s).0 ≡ ok true
      → (n : ℕ) × (s.id ≡ some n) × (m ≡ handshake n)
  unfolding client_hears
  client_hears-true (new_test i cfg) s h = ground arith
  client_hears-true (error e) s h = ground arith
  client_hears-true (handshake i) s h = (i, ground arith, refl)

  server_hears-true :
      (m : MessageType) (wrote : Bool) (s : TestRunner)
      → (server_hears b m wrote s).0 ≡ ok true
      → (n : ℕ) × (m ≡ handshake n) × (wrote ≡ true)
  unfolding server_hears write
  server_hears-true (new_test i cfg) wrote s h = ground arith
  server_hears-true (error e) wrote s h = ground arith
  server_hears-true (handshake i) wrote s h = (i, refl, ground arith)

  round-true :
      (side : Side) (w : Wake) (s : TestRunner)
      → (round b side w s).0 ≡ ok true
      → Completes s.id side w
  unfolding round queue ctx_send
  round-true client (tick listening) s h = absurd (ground arith)
  round-true client (packet bytes wrote) s h = absurd (ground arith)
  round-true client timeout s h = absurd (ground arith)
  round-true server (tick listening) s h = absurd (ground arith)
  round-true server (control bytes) s h = absurd (ground arith)
  round-true server timeout s h = absurd (ground arith)
  round-true client (control bytes) s h = elim (Option-cases (b.deserialize (cut bytes))) [
    | inl unread ↦ absurd (ground arith)
    | inr (m, read) ↦
        let (n, own, is) = client_hears-true m s (rw read at h) in
        own_back bytes n own (read ∙ ap some is)
  ]
  round-true server (packet bytes wrote) s h = elim (Option-cases (b.deserialize bytes)) [
    | inl unread ↦ absurd (ground arith)
    | inr (m, read) ↦
        let (n, is, written) = server_hears-true m wrote s (rw read at h) in
        rw written (any_heard bytes n (read ∙ ap some is))
  ]

  -- The wait at which the handshake was completed, and what the test has.
  pub record IsReady (side : Side) (id : Option ℕ) (ws : List Wake) (s' : TestRunner) : Type 0 where
    pub before : List Wake
    pub last : Wake
    pub later : List Wake
    pub split : ws ≡ before ++ last ∷ later
    pub completes : Completes id side last
    pub has_cfg : (cfg : Config) × (s'.test_cfg ≡ some cfg)
    pub has_ctx : (ctx : ConnCtx) × (s'.ctx ≡ some ctx)

  finish-ok :
      (s s' : TestRunner)
      → (finish s).0 ≡ ok tt
      → (finish s).1 ≡ s'
      → ((cfg : Config) × (s'.test_cfg ≡ some cfg)) × ((ctx : ConnCtx) × (s'.ctx ≡ some ctx))
  unfolding finish
  finish-ok s s' h e = elim (Option-cases s.test_cfg) [
    | inl no_cfg ↦ absurd (ground arith)
    | inr (cfg, has_cfg) ↦ elim (Option-cases s.ctx) [
      | inl no_ctx ↦ absurd (ground arith)
      | inr (ctx, has_ctx) ↦ ((cfg, ground arith), (ctx, ground arith))
    ]
  ]

  after_wake_done :
      (r : Outcome Error Bool × TestRunner) (next : TestRunner → Progress × TestRunner)
      (s' : TestRunner)
      → after_wake r next ≡ (ended (ok tt), s')
      → ((r.0 ≡ ok true) × ((finish r.1).0 ≡ ok tt) × ((finish r.1).1 ≡ s'))
        ⊎ ((r.0 ≡ ok false) × (next r.1 ≡ (ended (ok tt), s')))
  after_wake_done (ok true, s) next s' e = inl (refl, cc, ap (λ q. q.1) e)
  after_wake_done (ok false, s) next s' e = inr (refl, e)
  after_wake_done (err x, s) next s' e = absurd (ground arith)
  after_wake_done (panic, s) next s' e = absurd (ground arith)

  pub shake-IsReady :
      (side : Side) (ws : List Wake) (s s' : TestRunner)
      → shake b side ws s ≡ (ended (ok tt), s')
      → IsReady side s.id ws s'
  shake-IsReady side [] s s' e = absurd (unfold shake in ground arith)
  shake-IsReady side (w ∷ ws) s s' e =
      elim (after_wake_done (round b side w s) (λ q. shake b side ws q) s' (unfold shake in e)) [
        | inl (last, fine, is) ↦
            let (has_cfg, has_ctx) = finish-ok (round b side w s).1 s' fine is in
            record {
              before = [];
              last = w;
              later = ws;
              split = refl;
              completes = round-true side w s last;
              has_cfg = has_cfg;
              has_ctx = has_ctx;
            }
        | inr (again, rest) ↦
            let more = shake-IsReady side ws (round b side w s).1 s' rest in
            record {
              before = w ∷ more.before;
              last = more.last;
              later = more.later;
              split = ap (λ l. w ∷ l) more.split;
              completes =
                  subst (λ i. Completes i side more.last) (round-id side w s) more.completes;
              has_cfg = more.has_cfg;
              has_ctx = more.has_ctx;
            }
      ]
