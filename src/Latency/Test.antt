-- ===== src/Latency/Test.antt =====
-- The test itself: `TestRunner<Ready>` (latency/src/test_runner.rs).
pub mod Loop
use niceperf.Prelude.{
  take, ℕ, ◌+◌, ◌^◌, Bool, true, false, Option, none, some, List, [], ◌∷◌, ◌++◌, Bytes, ltb, leb,
  replicate,
}
use niceperf.Prelude.Outcome.{Outcome, ok, err, panic, unwrap, require}
use niceperf.Latency.Args.{Config}
use niceperf.Latency.Protocol.{MessageType, new_test, handshake, error, Codec}
use niceperf.Latency.Conn.{ConnCtx, ctx_stop}
use niceperf.Latency.Runner.{
  Side, client, server, Error, server_error, TestRunner, Act, pure, lift, raise, get, put, ◌>>=◌,
  ◌>>◌, of_conn, Progress, waiting, ended, queue,
}

-- What wakes the test: the timer, by whether the connection's task still listens; bytes on the control
-- stream; a packet of the connection; or the stop, by whether that task still runs.
pub data Event : Type 0 where
  tick : Bool → Event
  control : Bytes → Event
  packet : Bytes → Event
  stop : Bool → Event

-- What the runner makes of a message of the other side: a server has not implemented any.
unfoldable pub on_message : Side → MessageType → Outcome Error (Unit {0})
on_message client (handshake id) = ok tt
on_message client (new_test id config) = panic
on_message client (error e) = err server_error
on_message server msg = panic

-- The result of `handle_msg` is dropped by its caller, a panic is not.
abbrev pub ignored : Outcome Error (Unit {0}) → Outcome Error (Unit {0})
ignored (ok u) = ok tt
ignored (err e) = ok tt
ignored panic = panic

-- `for ctx in self.ctx.iter_mut() { ctx.stop() }`
unfoldable pub stop_ctx : Bool → Act (Unit {0})
unfolding ctx_stop
stop_ctx running s = elim (s.ctx) [
  | none ↦ (ok tt, s)
  | some ctx ↦
      (do ctx' ← lift (of_conn (ctx_stop ctx running)); put (record s { ctx = some ctx' })) s
]

abbrev pub dropped : Act (Unit {0}) → Act (Unit {0})
dropped m s = (ignored (m s).0, (m s).1)

abbrev pub after_round :
    Outcome Error Bool × TestRunner → (TestRunner → Progress × TestRunner) → Progress × TestRunner
after_round (ok true, s) next = (ended (ok tt), s)
after_round (ok false, s) next = next s
after_round (err e, s) next = (ended (err e), s)
after_round (panic, s) next = (ended panic, s)

-- The part of `run` before the loop: `tokio::time::interval` panics on a period of 0.
unfoldable pub begin : Act ℕ
begin = do
  s ← get
  cfg ← lift (unwrap s.test_cfg)
  put (record s { test_cfg = none })
  interval ← lift (unwrap cfg.common_opts.interval)
  lift (require (ltb 0 interval))
  packet_size ← lift (unwrap cfg.common_opts.len)
  lift (require (leb packet_size 65535))
  pure packet_size

abbrev pub after_begin :
    Outcome Error ℕ × TestRunner → (ℕ → TestRunner → Progress × TestRunner) → Progress × TestRunner
after_begin (ok n, s) next = next n s
after_begin (err e, s) next = (ended (err e), s)
after_begin (panic, s) next = (ended panic, s)

module _ (b : Codec) where
  -- `handle_msg`
  unfoldable pub handle_msg : Bytes → Act (Unit {0})
  handle_msg bytes = do
    msg ← lift (unwrap (b.deserialize bytes))
    s ← get
    lift (on_message s.side msg)

  -- One round of `run`: whether the loop is left.
  unfoldable pub test_round : ℕ → Event → Act Bool
  test_round packet_size (tick listening) = do queue (replicate packet_size 0) listening; pure false
  test_round packet_size (control bytes) = do dropped (handle_msg (take 65535 bytes)); pure false
  test_round packet_size (packet bytes) = do
    s ← get
    put (record s { received = s.received ++ bytes ∷ [] })
    pure false
  test_round packet_size (stop running) = do stop_ctx running; pure true

  unfoldable pub test_loop : ℕ → List Event → TestRunner → Progress × TestRunner
  test_loop packet_size [] s = (waiting, s)
  test_loop packet_size (e ∷ es) s =
      after_round (test_round packet_size e s) (λ s'. test_loop packet_size es s')

  -- `run`
  unfoldable pub run : List Event → TestRunner → Progress × TestRunner
  run es s = after_begin (begin s) (λ n s'. test_loop n es s')
