-- ===== src/Latency/Control/Shutdown.antt =====
-- How the control server ends.
use mathlib.Core.Path.{subst}
use niceperf.Prelude.{
  ℕ, zero, suc, ◌+◌, ◌<◌, ◌≡◌, refl, ap, ◌∙◌, Bool, true, false, none, List, [], ◌∷◌, ◌++◌, arith,
  replicate, append-nil, append_assoc, Bool-cases, inl, inr,
}
use niceperf.Prelude.Outcome.{ok, err, panic}
use niceperf.Common.Quic.{QuicServer}
use niceperf.Latency.Runner as Runner
use niceperf.Latency.Control.{
  connection, ClientCtx, CtrlServer, Event, connecting, ctrl_c, ended, handle_client, accept,
  stop_all, after_stop, run, started,
}

abbrev pub fresh_client : ClientCtx
fresh_client = record { stop = true; runner = Runner.new Runner.server none none }

abbrev pub stopped_client : ClientCtx
stopped_client = record fresh_client { stop = false }

stop_all-running :
    (n i : ℕ) (running : ℕ → Bool)
    → ((j : ℕ) → j < n → running (i + j) ≡ true)
    → stop_all i running (replicate n fresh_client) ≡ ok (replicate n stopped_client)
unfolding stop_all
stop_all-running zero i running h = refl
stop_all-running (suc n) i running h =
    let first : running i ≡ true =
      subst (λ k. running k ≡ true) (omega arith) (h 0 (omega arith)) in
    let rest =
      stop_all-running n (i + 1) running
        (λ j lt. subst (λ k. running k ≡ true) (omega arith) (h (suc j) (omega arith))) in
    rw (first, rest)

stop_all-dead :
    (n i j : ℕ) (running : ℕ → Bool)
    → j < n
    → running (i + j) ≡ false
    → stop_all i running (replicate n fresh_client) ≡ panic
unfolding stop_all
stop_all-dead zero i j running lt dead = absurd (omega arith)
stop_all-dead (suc n) i zero running lt dead =
    let first : running i ≡ false = subst (λ k. running k ≡ false) (omega arith) dead in rw first
stop_all-dead (suc n) i (suc j) running lt dead = elim (Bool-cases (running i)) [
  | inr first ↦ rw first
  | inl first ↦
      let rest =
        stop_all-dead n (i + 1) j running (omega arith)
          (subst (λ k. running k ≡ false) (omega arith) dead) in
      rw (first, rest)
]

run_accepted :
    (s : CtrlServer) (es : List Event)
    → run (connecting true true ∷ es) s
      ≡ run es (record s { clients = s.clients ++ fresh_client ∷ [] })
unfolding run accept handle_client
run_accepted s es = refl

run_stop :
    (running : ℕ → Bool) (more : List Event) (q : QuicServer) (clients : List ClientCtx)
    → run (ctrl_c running ∷ more) (record { quinn = q; clients = clients })
      ≡ after_stop (stop_all 0 running clients) (record { quinn = q; clients = clients })
unfolding run
run_stop running more q clients = refl

run_refused :
    (opens : Bool) (more : List Event) (q : QuicServer) (clients : List ClientCtx)
    → run (connecting false opens ∷ more) (record { quinn = q; clients = clients })
      ≡ (ended (err connection), record { quinn = q; clients = clients })
unfolding run accept
run_refused opens more q clients = refl

run-accepts :
    (n : ℕ) (es : List Event) (s : CtrlServer)
    → run (replicate n (connecting true true) ++ es) s
      ≡ run es (record s { clients = s.clients ++ replicate n fresh_client })
run-accepts zero es s = rw (append-nil s.clients)
run-accepts (suc n) es s =
    run_accepted s (replicate n (connecting true true) ++ es)
    ∙ run-accepts n es (record s { clients = s.clients ++ fresh_client ∷ [] })
    ∙ rw (append_assoc s.clients (fresh_client ∷ []) (replicate n fresh_client))

run_interrupted :
    (q : QuicServer) (n : ℕ) (running : ℕ → Bool) (more : List Event)
    → run (replicate n (connecting true true) ++ ctrl_c running ∷ more) (started q)
      ≡ after_stop
          (stop_all 0 running (replicate n fresh_client))
          (record { quinn = q; clients = replicate n fresh_client })
run_interrupted q n running more =
    run-accepts n (ctrl_c running ∷ more) (started q)
    ∙ run_stop running more q (replicate n fresh_client)

-- At Ctrl-C the server stops every client that it has accepted and ends without an error, if the tests of
-- all of them still run.
pub run-stopped :
    (q : QuicServer) (n : ℕ) (running : ℕ → Bool) (more : List Event)
    → ((j : ℕ) → j < n → running j ≡ true)
    → run (replicate n (connecting true true) ++ ctrl_c running ∷ more) (started q)
      ≡ (ended (ok tt), record { quinn = q; clients = replicate n stopped_client })
run-stopped q n running more all =
    run_interrupted q n running more
    ∙ ap (λ r. after_stop r (record { quinn = q; clients = replicate n fresh_client }))
        (stop_all-running n 0 running
          (λ j lt. subst (λ k. running k ≡ true) (omega arith) (all j lt)))

-- If the test of one of the clients that it has accepted has ended before, the server panics at Ctrl-C.
pub run_finished_client :
    (q : QuicServer) (n j : ℕ) (running : ℕ → Bool) (more : List Event)
    → j < n
    → running j ≡ false
    → (run (replicate n (connecting true true) ++ ctrl_c running ∷ more) (started q)).0
      ≡ ended panic
run_finished_client q n j running more lt dead =
    ap (λ r. r.0)
      (run_interrupted q n running more
        ∙ ap (λ r. after_stop r (record { quinn = q; clients = replicate n fresh_client }))
            (stop_all-dead n 0 j running lt (subst (λ k. running k ≡ false) (omega arith) dead)))

-- A client whose QUIC handshake fails ends the server for the clients that it has accepted before: their
-- stops are not sent.
pub run_bad_connection :
    (q : QuicServer) (n : ℕ) (opens : Bool) (more : List Event)
    → run (replicate n (connecting true true) ++ connecting false opens ∷ more) (started q)
      ≡ (ended (err connection), record { quinn = q; clients = replicate n fresh_client })
run_bad_connection q n opens more =
    run-accepts n (connecting false opens ∷ more) (started q)
    ∙ run_refused opens more q (replicate n fresh_client)
