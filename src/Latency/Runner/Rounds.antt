-- ===== src/Latency/Runner/Rounds.antt =====
-- What a single round of the handshake does.
use niceperf.Prelude.{
  ◌≤◌, length, take_short, ℕ, zero, suc, ◌≡◌, refl, sym, ap, ◌∙◌, true, some, List, [], ◌∷◌, ◌++◌,
  Bytes, ==_refl, replicate, append-nil, append_assoc,
}
use niceperf.Prelude.Outcome.{ok, err}
use niceperf.Latency.Args.{Config}
use niceperf.Latency.Protocol.{handshake, Codec}
use niceperf.Latency.Conn.{ConnCtx, ctx_send}
use niceperf.Latency.Runner.{
  client, server, TestRunner, Wake, timeout, handshake_timeout, tick, control, packet, waiting,
  ended, write, queue, round, client_hears, server_hears, finish, shake,
}

module _ (b : Codec) (s : TestRunner) (id : ℕ) (enc : Bytes) where
  pub shake-tick :
      (ctx : ConnCtx)
      → s.id ≡ some id
      → s.ctx ≡ some ctx
      → b.serialize (handshake id) ≡ some enc
      → shake b client (tick true ∷ []) s ≡ (waiting, record s { queued = s.queued ++ enc ∷ [] })
  unfolding shake round queue ctx_send
  shake-tick ctx known opened code = rw (known, code, opened)

  pub shake-control :
      (ctx : ConnCtx) (cfg : Config)
      → s.id ≡ some id
      → s.ctx ≡ some ctx
      → s.test_cfg ≡ some cfg
      → b.deserialize enc ≡ some (handshake id)
      → length enc ≤ 1024
      → shake b client (control enc ∷ []) s ≡ (ended (ok tt), s)
  unfolding shake round client_hears finish
  shake-control ctx cfg known opened config read short =
      rw (take_short 1024 enc short, read, known, ==_refl id, config, opened)

  pub shake-packet :
      (ctx : ConnCtx) (cfg : Config)
      → s.ctx ≡ some ctx
      → s.test_cfg ≡ some cfg
      → b.serialize (handshake id) ≡ some enc
      → b.deserialize enc ≡ some (handshake id)
      → shake b server (packet enc true ∷ []) s
        ≡ (ended (ok tt), record s { written = s.written ++ enc ∷ [] })
  unfolding shake round server_hears write finish
  shake-packet ctx cfg opened config code read = rw (read, code, config, opened)

pub shake-timeout :
    (b : Codec) (s : TestRunner)
    → shake b server (timeout ∷ []) s ≡ (ended (err handshake_timeout), s)
unfolding shake round
shake-timeout b s = refl

module _ (b : Codec) (id : ℕ) (enc : Bytes) where
  shake-tick_more :
      (s : TestRunner) (ctx : ConnCtx) (later : List Wake)
      → s.id ≡ some id
      → s.ctx ≡ some ctx
      → b.serialize (handshake id) ≡ some enc
      → shake b client (tick true ∷ later) s
        ≡ shake b client later (record s { queued = s.queued ++ enc ∷ [] })
  unfolding shake round queue ctx_send
  shake-tick_more s ctx later known opened code = rw (known, code, opened)

  -- Each tick of the client sends one handshake.
  pub shake-ticks :
      (s : TestRunner) (ctx : ConnCtx) (k : ℕ) (later : List Wake)
      → s.id ≡ some id
      → s.ctx ≡ some ctx
      → b.serialize (handshake id) ≡ some enc
      → shake b client (replicate k (tick true) ++ later) s
        ≡ shake b client later (record s { queued = s.queued ++ replicate k enc })
  shake-ticks s ctx zero later known opened code =
      ap (λ q. shake b client later (record s { queued = q })) (sym (append-nil s.queued))
  shake-ticks s ctx (suc k) later known opened code =
      shake-tick_more s ctx (replicate k (tick true) ++ later) known opened code
      ∙ shake-ticks (record s { queued = s.queued ++ enc ∷ [] }) ctx k later known opened code
      ∙ ap (λ q. shake b client later (record s { queued = q }))
          (append_assoc s.queued (enc ∷ []) (replicate k enc))
