-- ===== src/Latency/Conn/Relay.antt =====
-- Two tasks of one test: what the client's task sends comes to the server's task.
use niceperf.Prelude.{
  ◌≡◌, refl, sym, ap, ◌∙◌, true, none, some, List, [], ◌∷◌, ◌++◌, Bytes, map, append-nil,
  append_assoc,
}
use niceperf.Ping.Task.{gave}
use niceperf.Latency.Conn.{Peer, ConnRunner, Event, outgoing, incoming, waiting, run}
use niceperf.Latency.Conn.Peers.{heard, told, run-told, run_heard}
use niceperf.Latency.Conn.Serving.{same_peer_refl, learnt, run_learns}

-- Bytes that the test hands to its task, and packets that arrive from an address.
abbrev pub handed : List Bytes → List Event
handed = map (λ msg. outgoing msg (gave 0))

abbrev pub arrivals : Peer → List (Peer × Bytes) → List Event
arrivals from = map (λ s. incoming from s.1 true)

abbrev pub addressed : Peer → List Bytes → List (Peer × Bytes)
addressed p = map (λ msg. (p, msg))

pub run_idle : (r : ConnRunner) → run r [] ≡ (r, waiting)
unfolding run
run_idle r = refl

pub run-handed :
    (p : Peer) (r : ConnRunner) (msgs : List Bytes)
    → r.socket.peer ≡ some p
    → run r (handed msgs) ≡ (record r { sent = r.sent ++ addressed p msgs }, waiting)
run-handed p r [] known =
    run_idle r ∙ ap (λ s. (record r { sent = s }, waiting)) (sym (append-nil r.sent))
run-handed p r (msg ∷ msgs) known =
    run-told p r msg 0 (handed msgs) known
    ∙ run-handed p (told r p msg) msgs known
    ∙ rw (append_assoc r.sent ((p, msg) ∷ []) (addressed p msgs))

pub run-arrivals :
    (p from : Peer) (r : ConnRunner) (msgs : List Bytes) (rest : List Event)
    → r.socket.peer ≡ some from
    → run r (arrivals from (addressed p msgs) ++ rest)
      ≡ run (record r { delivered = r.delivered ++ msgs }) rest
run-arrivals p from r [] rest known = rw (append-nil r.delivered)
run-arrivals p from r (msg ∷ msgs) rest known =
    run_heard from from r msg (arrivals from (addressed p msgs) ++ rest) known (same_peer_refl from)
    ∙ run-arrivals p from (heard r msg) msgs rest known
    ∙ rw (append_assoc r.delivered (msg ∷ []) msgs)

run_tells :
    (p : Peer) (r : ConnRunner) (msg : Bytes)
    → r.socket.peer ≡ some p
    → run r (outgoing msg (gave 0) ∷ []) ≡ (told r p msg, waiting)
run_tells p r msg known = run-told p r msg 0 [] known ∙ run_idle (told r p msg)

-- Whatever messages the client's test hands to its task, at least one, once all have arrived from the
-- client's address the server's task has handed on exactly these, in order, and an answer of the server
-- goes to that address. Neither task has failed.
pub run-relay :
    (host guest : Peer) (c s : ConnRunner) (first : Bytes) (msgs : List Bytes) (answer : Bytes)
    → c.socket.peer ≡ some host
    → c.sent ≡ []
    → s.socket.peer ≡ none
    → ((run c (handed (first ∷ msgs))).1 ≡ waiting)
      × (run s
            (arrivals guest (run c (handed (first ∷ msgs))).0.sent ++ outgoing answer (gave 0) ∷ [])
          ≡ (
            record s {
              socket = record (s.socket) { peer = some guest };
              delivered = s.delivered ++ first ∷ msgs;
              sent = s.sent ++ (guest, answer) ∷ [];
            },
            waiting,
          ))
run-relay host guest c s first msgs answer known silent unknown =
    let sends = run-handed host c (first ∷ msgs) known in
    let arrived = learnt s guest first in
    (
      ap (λ r. r.1) sends,
      rw (sends, silent)
          (run_learns guest s first
              (arrivals guest (addressed host msgs) ++ outgoing answer (gave 0) ∷ []) unknown
            ∙ run-arrivals host guest arrived msgs (outgoing answer (gave 0) ∷ []) refl
            ∙ run_tells guest (record arrived { delivered = arrived.delivered ++ msgs }) answer refl
            ∙ rw (append_assoc s.delivered (first ∷ []) msgs)),
    )
