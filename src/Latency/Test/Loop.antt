-- ===== src/Latency/Test/Loop.antt =====
-- What a test sends and counts, and what ends it.
use niceperf.Prelude.{
  take, ℕ, ◌≤◌, ◌<◌, ◌≡◌, refl, ◌∙◌, true, false, none, some, List, [], ◌∷◌, ◌++◌, Bytes, All,
  replicate, append-nil, append_assoc, lt→ltb, le→leb, ◌⊎◌, inl, inr, Option-cases,
}
use niceperf.Prelude.Outcome.{ok, panic}
use niceperf.Latency.Args.{Config}
use niceperf.Latency.Protocol.{MessageType, new_test, handshake, error, Codec}
use niceperf.Latency.Protocol as Protocol
use niceperf.Latency.Conn.{ConnCtx, ctx_send}
use niceperf.Latency.Runner.{Side, client, server, TestRunner, ended, queue}
use niceperf.Latency.Test.{
  Event, tick, control, packet, stop, on_message, stop_ctx, handle_msg, test_round, test_loop,
  begin, run,
}

-- The packets that the ticks send, and those that come.
abbrev pub sent_of : ℕ → List Event → List Bytes
sent_of n [] = []
sent_of n (tick listening ∷ es) = replicate n 0 ∷ sent_of n es
sent_of n (control bytes ∷ es) = sent_of n es
sent_of n (packet bytes ∷ es) = sent_of n es
sent_of n (stop running ∷ es) = sent_of n es

abbrev pub heard_of : List Event → List Bytes
heard_of [] = []
heard_of (packet bytes ∷ es) = bytes ∷ heard_of es
heard_of (tick listening ∷ es) = heard_of es
heard_of (control bytes ∷ es) = heard_of es
heard_of (stop running ∷ es) = heard_of es

abbrev pub after : ℕ → TestRunner → List Event → TestRunner
after n s es = record s { queued = s.queued ++ sent_of n es; received = s.received ++ heard_of es }

-- The runner may start: its interval and its packet size are there and in range.
pub record CanStart (s : TestRunner) (n : ℕ) : Type 0 where
  pub cfg : Config
  pub interval : ℕ
  pub has_cfg : s.test_cfg ≡ some cfg
  pub has_interval : cfg.common_opts.interval ≡ some interval
  pub positive : 0 < interval
  pub has_len : cfg.common_opts.len ≡ some n
  pub small : n ≤ 65535

pub begin_lem :
    (s : TestRunner) (n : ℕ) → CanStart s n → begin s ≡ (ok n, record s { test_cfg = none })
unfolding begin
begin_lem s n c =
    rw
      (c.has_cfg, c.has_interval, lt→ltb 0 c.interval c.positive, c.has_len, le→leb n 65535 c.small)

module _ (b : Codec) where
  -- What a side takes in its stride: a tick, a packet, and for a client a handshake or an error of the
  -- server.
  abbrev pub Harmless : Side → Event → Type 0
  Harmless side (tick listening) = listening ≡ true
  Harmless side (packet bytes) = Unit {0}
  Harmless side (control bytes) =
      (side ≡ client)
      × (((id : ℕ) × (b.deserialize (take 65535 bytes) ≡ some (handshake id)))
          ⊎ ((e : Protocol.Error) × (b.deserialize (take 65535 bytes) ≡ some (error e))))
  Harmless side (stop running) = ⊥

  loop_tick :
      (n : ℕ) (s : TestRunner) (ctx : ConnCtx) (es : List Event)
      → s.ctx ≡ some ctx
      → test_loop b n (tick true ∷ es) s
        ≡ test_loop b n es (record s { queued = s.queued ++ replicate n 0 ∷ [] })
  unfolding test_loop test_round queue ctx_send
  loop_tick n s ctx es has = rw has

  loop_control :
      (n : ℕ) (s : TestRunner) (bytes : Bytes) (es : List Event)
      → s.side ≡ client
      → ((id : ℕ) × (b.deserialize (take 65535 bytes) ≡ some (handshake id)))
        ⊎ ((e : Protocol.Error) × (b.deserialize (take 65535 bytes) ≡ some (error e)))
      → test_loop b n (control bytes ∷ es) s ≡ test_loop b n es s
  unfolding test_loop test_round handle_msg on_message
  loop_control n s bytes es side (inl (id, read)) = rw (read, side)
  loop_control n s bytes es side (inr (e, read)) = rw (read, side)

  pub loop_packet :
      (n : ℕ) (s : TestRunner) (bytes : Bytes) (es : List Event)
      → test_loop b n (packet bytes ∷ es) s
        ≡ test_loop b n es (record s { received = s.received ++ bytes ∷ [] })
  unfolding test_loop test_round
  loop_packet n s bytes es = refl

  loop-Harmless :
      (n : ℕ) (s : TestRunner) (ctx : ConnCtx) (es rest : List Event)
      → s.ctx ≡ some ctx
      → All (Harmless s.side) es
      → test_loop b n (es ++ rest) s ≡ test_loop b n rest (after n s es)
  loop-Harmless n s ctx [] rest has h = rw (append-nil s.queued, append-nil s.received)
  loop-Harmless n s ctx (tick listening ∷ es) rest has (heard, h) =
      rw heard (loop_tick n s ctx (es ++ rest) has)
      ∙ loop-Harmless n (record s { queued = s.queued ++ replicate n 0 ∷ [] }) ctx es rest has h
      ∙ rw (append_assoc s.queued (replicate n 0 ∷ []) (sent_of n es))
  loop-Harmless n s ctx (packet bytes ∷ es) rest has (u, h) =
      loop_packet n s bytes (es ++ rest)
      ∙ loop-Harmless n (record s { received = s.received ++ bytes ∷ [] }) ctx es rest has h
      ∙ rw (append_assoc s.received (bytes ∷ []) (heard_of es))
  loop-Harmless n s ctx (control bytes ∷ es) rest has ((side, read), h) =
      loop_control n s bytes (es ++ rest) side read ∙ loop-Harmless n s ctx es rest has h
  loop-Harmless n s ctx (stop running ∷ es) rest has (never, h) = absurd never

  pub loop_stop :
      (n : ℕ) (s : TestRunner) (ctx : ConnCtx) (more : List Event)
      → s.ctx ≡ some ctx
      → ctx.stop ≡ true
      → test_loop b n (stop true ∷ more) s
        ≡ (ended (ok tt), record s { ctx = some (record { stop = false }) })
  unfolding test_loop test_round stop_ctx
  loop_stop n s ctx more has fresh = rw (has, fresh)

  -- The test of either side sends one packet of the configured size in each tick and counts the packets
  -- that come, both in order, and ends without an error at the stop, which it passes on to the connection.
  -- Handshakes and errors that a client hears from the server meanwhile change nothing. The
  -- options are in range, and the connection listens.
  pub run-Harmless :
      (s : TestRunner) (n : ℕ) (ctx : ConnCtx) (es more : List Event)
      → CanStart s n
      → s.ctx ≡ some ctx
      → ctx.stop ≡ true
      → All (Harmless s.side) es
      → run b (es ++ stop true ∷ more) s ≡ (
        ended (ok tt),
        record (after n s es) { test_cfg = none; ctx = some (record { stop = false }) },
      )
  run-Harmless s n ctx es more start has fresh h =
      unfold run in
      rw (begin_lem s n start) (
        loop-Harmless n (record s { test_cfg = none }) ctx es (stop true ∷ more) has h
        ∙ loop_stop n (after n (record s { test_cfg = none }) es) ctx more has fresh)

  -- A server's test panics at the first message on the control stream, whatever it is.
  pub run_server_control :
      (s : TestRunner) (n : ℕ) (bytes : Bytes) (more : List Event)
      → CanStart s n
      → s.side ≡ server
      → (run b (control bytes ∷ more) s).0 ≡ ended panic
  run_server_control s n bytes more start side =
      unfold run in
      rw (begin_lem s n start) (
        unfold test_loop test_round handle_msg on_message in
        elim (Option-cases (b.deserialize (take 65535 bytes))) [
          | inl unread ↦ rw unread
          | inr (m, read) ↦ rw (read, side)
        ])
