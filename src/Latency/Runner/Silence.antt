-- ===== src/Latency/Runner/Silence.antt =====
-- What wakes a client that hears nothing: the timer and the ten seconds, each as tokio documents it, in
-- milliseconds. The sleep is made anew by every round of the `select!`, the interval lasts.
use niceperf.Prelude.{
  ℕ, ◌+◌, ◌≤◌, ◌≡◌, ◌∙◌, true, some, List, [], ◌∷◌, ◌++◌, Bytes, arith, ltb, lt→ltb, length,
  replicate, append-nil, append_assoc, if◌then◌else◌,
}
use Prim.Native.Nat.{max}
use niceperf.Latency.Protocol.{handshake, Codec}
use niceperf.Latency.Conn.{ConnCtx, ctx_send}
use niceperf.Latency.Runner.{client, TestRunner, Wake, tick, timeout, waiting, queue, round, shake}

abbrev pub handshake_timeout : ℕ
handshake_timeout = 10000

abbrev pub handshake_interval : ℕ
handshake_interval = 100

-- The branch that is due first, of a round that starts at `now` when the timer is due at `due`.
abbrev pub first_due : ℕ → ℕ → Wake
first_due now due = if ltb due (now + handshake_timeout) then tick true else timeout

-- The waits of a client that hears nothing; the body of each round takes a time of its own.
abbrev pub silent_waits : ℕ → ℕ → List ℕ → List Wake
silent_waits now due [] = []
silent_waits now due (body ∷ bodies) =
    first_due now due ∷ silent_waits (max now due + body) (due + handshake_interval) bodies

module _ (b : Codec) where
  shake_ticks :
      (s : TestRunner) (id : ℕ) (enc : Bytes) (ctx : ConnCtx) (ws : List Wake)
      → s.id ≡ some id
      → s.ctx ≡ some ctx
      → b.serialize (handshake id) ≡ some enc
      → shake b client (tick true ∷ ws) s
        ≡ shake b client ws (record s { queued = s.queued ++ enc ∷ [] })
  unfolding shake round queue ctx_send
  shake_ticks s id enc ctx ws known opened code = rw (known, code, opened)

  -- The handshake timeout never fires on a client: however long the server is silent, and however long
  -- the rounds take, the client goes on sending its handshake, once in each round.
  pub shake_silent :
      (s : TestRunner) (id : ℕ) (enc : Bytes) (ctx : ConnCtx) (now due : ℕ) (bodies : List ℕ)
      → s.id ≡ some id
      → s.ctx ≡ some ctx
      → b.serialize (handshake id) ≡ some enc
      → due ≤ now + handshake_interval
      → shake b client (silent_waits now due bodies) s
        ≡ (waiting, record s { queued = s.queued ++ replicate (length bodies) enc })
  shake_silent s id enc ctx now due [] known opened code soon =
      unfold shake in rw (append-nil s.queued)
  shake_silent s id enc ctx now due (body ∷ bodies) known opened code soon =
      let rest = silent_waits (max now due + body) (due + handshake_interval) bodies in
      let s₁ = record s { queued = s.queued ++ enc ∷ [] } in
      rw (lt→ltb due (now + handshake_timeout) (omega arith)) (
        shake_ticks s id enc ctx rest known opened code
        ∙ shake_silent s₁ id enc ctx (max now due + body) (due + handshake_interval) bodies known
            opened code (omega arith)
        ∙ rw (append_assoc s.queued (enc ∷ []) (replicate (length bodies) enc)))
