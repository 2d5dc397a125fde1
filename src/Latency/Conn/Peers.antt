-- ===== src/Latency/Conn/Peers.antt =====
-- Whom a test's socket talks to.
use niceperf.Prelude.{
  ℕ, ◌≡◌, refl, sym, ◌∙◌, Bool, true, false, some, List, [], ◌∷◌, ◌++◌, Bytes, All, All-snoc,
  append_assoc, if◌then◌else◌, Bool-cases, inl, inr,
}
use niceperf.Ping.Task.{refused, gave}
use niceperf.Latency.Conn.{
  Peer, same_peer, ConnRunner, Event, outgoing, incoming, socket_error, stop, panicked, on_outgoing,
  on_incoming, run,
}

-- The packets among the events that came from `p`.
abbrev pub packets_from : Peer → List Event → List Bytes
packets_from p [] = []
packets_from p (incoming from packet listening ∷ events) =
    if same_peer from p then packet ∷ packets_from p events else packets_from p events
packets_from p (outgoing msg sent ∷ events) = packets_from p events
packets_from p (socket_error e ∷ events) = packets_from p events
packets_from p (stop ∷ events) = packets_from p events

abbrev pub SentTo : Peer → List (Peer × Bytes) → Type 0
SentTo p = All (λ s. s.0 ≡ p)

-- The task talks to `p` only: what it sends goes there, and what it hands on came from there, in order.
pub record OnlyPeer (p : Peer) (r r' : ConnRunner) (events : List Event) : Type 0 where
  pub same_peer : r'.socket.peer ≡ some p
  pub sent_to : SentTo p r'.sent
  pub came_from :
      (rest : List Bytes) × (r.delivered ++ packets_from p events ≡ r'.delivered ++ rest)

OnlyPeer-end :
    (p : Peer) (r : ConnRunner) (events : List Event)
    → r.socket.peer ≡ some p
    → SentTo p r.sent
    → OnlyPeer p r r events
OnlyPeer-end p r events known sent = record {
  same_peer = known;
  sent_to = sent;
  came_from = (packets_from p events, refl);
}

abbrev pub heard : ConnRunner → Bytes → ConnRunner
heard r packet = record r { delivered = r.delivered ++ packet ∷ [] }

abbrev pub told : ConnRunner → Peer → Bytes → ConnRunner
told r p msg = record r { sent = r.sent ++ (p, msg) ∷ [] }

pub run-told :
    (p : Peer) (r : ConnRunner) (msg : Bytes) (n : ℕ) (events : List Event)
    → r.socket.peer ≡ some p
    → run r (outgoing msg (gave n) ∷ events) ≡ run (told r p msg) events
unfolding run on_outgoing
run-told p r msg n events known = rw known

run_refused :
    (p : Peer) (r : ConnRunner) (msg : Bytes) (e : ℕ) (events : List Event)
    → r.socket.peer ≡ some p
    → run r (outgoing msg (refused e) ∷ events) ≡ (r, panicked)
unfolding run on_outgoing
run_refused p r msg e events known = rw known

pub run_heard :
    (p from : Peer) (r : ConnRunner) (packet : Bytes) (events : List Event)
    → r.socket.peer ≡ some p
    → same_peer from p ≡ true
    → run r (incoming from packet true ∷ events) ≡ run (heard r packet) events
unfolding run on_incoming
run_heard p from r packet events known same = rw (known, same)

run_deaf :
    (p from : Peer) (r : ConnRunner) (packet : Bytes) (events : List Event)
    → r.socket.peer ≡ some p
    → run r (incoming from packet false ∷ events) ≡ (r, panicked)
unfolding run on_incoming
run_deaf p from r packet events known = elim (Bool-cases (same_peer from p)) [
  | inl same ↦ rw (known, same)
  | inr other ↦ rw (known, other)
]

pub run_foreign :
    (p from : Peer) (r : ConnRunner) (packet : Bytes) (listening : Bool) (events : List Event)
    → r.socket.peer ≡ some p
    → same_peer from p ≡ false
    → run r (incoming from packet listening ∷ events) ≡ (r, panicked)
unfolding run on_incoming
run_foreign p from r packet listening events known other = rw (known, other)

-- Once the socket knows its peer, the task never talks to another address, whatever happens.
pub run-OnlyPeer :
    (p : Peer) (r : ConnRunner) (events : List Event)
    → r.socket.peer ≡ some p
    → SentTo p r.sent
    → OnlyPeer p r (run r events).0 events
run-OnlyPeer p r [] known sent = unfold run in OnlyPeer-end p r [] known sent
run-OnlyPeer p r (socket_error e ∷ events) known sent =
    unfold run in OnlyPeer-end p r (socket_error e ∷ events) known sent
run-OnlyPeer p r (stop ∷ events) known sent =
    unfold run in OnlyPeer-end p r (stop ∷ events) known sent
run-OnlyPeer p r (outgoing msg (refused e) ∷ events) known sent =
    rw (run_refused p r msg e events known)
      (OnlyPeer-end p r (outgoing msg (refused e) ∷ events) known sent)
run-OnlyPeer p r (outgoing msg (gave n) ∷ events) known sent =
    let later =
      run-OnlyPeer p (told r p msg) events known
        (All-snoc (λ s. s.0 ≡ p) r.sent (p, msg) sent refl) in
    rw (run-told p r msg n events known)
      (record { same_peer = later.same_peer; sent_to = later.sent_to; came_from = later.came_from })
run-OnlyPeer p r (incoming from packet false ∷ events) known sent =
    rw (run_deaf p from r packet events known)
      (OnlyPeer-end p r (incoming from packet false ∷ events) known sent)
run-OnlyPeer p r (incoming from packet true ∷ events) known sent =
    let later = run-OnlyPeer p (heard r packet) events known sent in
    elim (Bool-cases (same_peer from p)) [
      | inl same ↦ rw (run_heard p from r packet events known same) (record {
        same_peer = later.same_peer;
        sent_to = later.sent_to;
        came_from = (
          later.came_from.0,
          rw same (sym (append_assoc r.delivered (packet ∷ []) (packets_from p events)))
              ∙ later.came_from.1,
        );
      })
      | inr other ↦
          rw (run_foreign p from r packet true events known other)
            (OnlyPeer-end p r (incoming from packet true ∷ events) known sent)
    ]
