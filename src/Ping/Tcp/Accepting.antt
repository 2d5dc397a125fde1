-- ===== src/Ping/Tcp/Accepting.antt =====
-- What the accept loop of the TCP server does with one connection after the other, and what ends it.
use niceperf.Prelude.{
  ◌^◌, ◌<◌, ◌≡◌, refl, ap, ◌∙◌, none, List, [], ◌∷◌, ◌++◌, arith, length, map, All, ◌==◌,
  Bool-cases, inl, inr,
}
use niceperf.Prelude.Outcome.{err, panic}
use niceperf.Prelude.Words.{Profile}
use niceperf.Common.Statistics.{Float}
use niceperf.Ping.Task.{waiting, ended, join_failed}
use niceperf.Ping.Echo.{Bincode, IsBincode}
use niceperf.Ping.Tcp.{
  Frame, FrameEvent, frame, disconnected, Handler, Accept, accepted, timed, answer, on_client_frame,
  client_handler, fresh, run,
}
use niceperf.Ping.Tcp.Server.{Ask, ask, reply, Fits, rounds, rounds-Served, client_handler-rounds}

module _ {F : Type 0} (f : Float F) (b : Bincode) (h : IsBincode b) where
  -- While a client that has sent its packets, fewer than 2 ^ 31 of them and each fitting its type, stays
  -- connected, the server waits for it with that one handler, whatever connections come.
  pub run_busy :
      (p : Profile) (asks : List Ask) (rest : List Accept)
      → Fits f b h asks
      → length asks < 2 ^ 31
      → run f b p (accepted (map (ask f b h) asks ++ []) ∷ rest)
        ≡ ((client_handler f b p (fresh f b) (map (ask f b h) asks ++ [])).0 ∷ [], waiting)
  run_busy p asks rest fits lt =
      unfold run client_handler in
      rw (client_handler-rounds f b h p (fresh f b) asks [] fits (omega arith))

  timed-replies : (s : Handler F) (r : Frame) → (timed f b s r).replies ≡ s.replies
  timed-replies s r = elim (Bool-cases (s.recv_counter == 0)) [
    | inl first ↦ rw first
    | inr later ↦ rw later
  ]

  client_handler_bad :
      (p : Profile) (s : Handler F) (r : Frame) (more : List FrameEvent)
      → b.deserialize r.bytes ≡ none
      → client_handler f b p s (frame r ∷ more) ≡ (timed f b s r, ended panic)
  unfolding client_handler on_client_frame answer
  client_handler_bad p s r more bad = rw bad

  -- A frame that is no packet ends the whole server, after the answers to the packets before it, which
  -- are fewer than 2 ^ 31 and fit their types: the connections that would follow are not served.
  pub run_bad_frame :
      (p : Profile) (asks : List Ask) (r : Frame) (more : List FrameEvent) (rest : List Accept)
      → Fits f b h asks
      → length asks < 2 ^ 31
      → b.deserialize r.bytes ≡ none
      → ((run f b p (accepted (map (ask f b h) asks ++ frame r ∷ more) ∷ rest)).1
          ≡ ended (err join_failed))
        × (map
              (λ s. s.replies)
              (run f b p (accepted (map (ask f b h) asks ++ frame r ∷ more) ∷ rest)).0
            ≡ map (reply f b h) asks ∷ [])
  run_bad_frame p asks r more rest fits lt bad =
      let last = rounds f b h (fresh f b) asks in
      unfold run in
      rw
        (
          client_handler-rounds f b h p (fresh f b) asks (frame r ∷ more) fits (omega arith),
          client_handler_bad p last r more bad,
        )
        (
          refl,
          ap (λ rs. rs ∷ [])
              (timed-replies last r ∙ (rounds-Served f b h (fresh f b) asks).replied),
        )

  abbrev pub connection : List Ask → Accept
  connection asks = accepted (map (ask f b h) asks ++ disconnected ∷ [])

  run_step :
      (p : Profile) (asks : List Ask) (rest : List Accept)
      → Fits f b h asks
      → length asks < 2 ^ 31
      → run f b p (connection asks ∷ rest)
        ≡ (rounds f b h (fresh f b) asks ∷ (run f b p rest).0, (run f b p rest).1)
  run_step p asks rest fits lt =
      unfold run client_handler in
      rw (client_handler-rounds f b h p (fresh f b) asks (disconnected ∷ []) fits (omega arith))

  -- Where the packets and times fit their types, `send` works, and each client sends fewer than 2 ^ 31
  -- packets and disconnects, the server answers the packets of each client in order, one client after the
  -- other, and then waits for the next connection.
  pub run-serves :
      (p : Profile) (clients : List (List Ask))
      → All (λ asks. Fits f b h asks × (length asks < 2 ^ 31)) clients
      → (map (λ s. s.replies) (run f b p (map connection clients)).0
          ≡ map (map (reply f b h)) clients)
        × ((run f b p (map connection clients)).1 ≡ waiting)
  run-serves p [] served = unfold run in (refl, refl)
  run-serves p (asks ∷ clients) ((fits, lt), served) =
      let (replies, end) = run-serves p clients served in
      rw (run_step p asks (map connection clients) fits lt)
        (rw ((rounds-Served f b h (fresh f b) asks).replied, replies), end)
