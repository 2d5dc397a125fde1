-- ===== src/Latency/Conn/Serving.antt =====
-- What the task does for its peer, and what ends it.
use niceperf.Prelude.{
  ◌≡◌, refl, sym, ◌∙◌, Bool, true, false, none, some, List, [], ◌∷◌, ◌++◌, Bytes, map, append-nil,
  append_assoc, ==_refl,
}
use niceperf.Common.Os.{v4, v6}
use niceperf.Ping.Task.{Sys, gave}
use niceperf.Latency.Conn.{
  Peer, same_peer, ConnRunner, Event, outgoing, incoming, stop, stopped, panicked, on_outgoing,
  on_incoming, run,
}
use niceperf.Latency.Conn.Peers.{
  OnlyPeer, run-OnlyPeer, packets_from, heard, told, run_heard, run-told, run_foreign,
}

-- A packet in the one direction or the other.
pub data Exchange : Type 0 where
  says : Bytes → Exchange
  hears : Bytes → Exchange

abbrev pub event : Peer → Exchange → Event
event p (says msg) = outgoing msg (gave 0)
event p (hears packet) = incoming p packet true

abbrev pub said : Peer → List Exchange → List (Peer × Bytes)
said p [] = []
said p (says msg ∷ xs) = (p, msg) ∷ said p xs
said p (hears packet ∷ xs) = said p xs

abbrev pub heard_of : List Exchange → List Bytes
heard_of [] = []
heard_of (says msg ∷ xs) = heard_of xs
heard_of (hears packet ∷ xs) = packet ∷ heard_of xs

abbrev pub after : Peer → ConnRunner → List Exchange → ConnRunner
after p r xs = record r { sent = r.sent ++ said p xs; delivered = r.delivered ++ heard_of xs }

pub same_peer_refl : (p : Peer) → same_peer p p ≡ true
same_peer_refl (v4 a, p) = rw (==_refl a, ==_refl p)
same_peer_refl (v6 a, p) = rw (==_refl a, ==_refl p)

pub run-exchanges :
    (p : Peer) (r : ConnRunner) (xs : List Exchange) (rest : List Event)
    → r.socket.peer ≡ some p
    → run r (map (event p) xs ++ rest) ≡ run (after p r xs) rest
run-exchanges p r [] rest known = rw (append-nil r.sent, append-nil r.delivered)
run-exchanges p r (says msg ∷ xs) rest known =
    run-told p r msg 0 (map (event p) xs ++ rest) known
    ∙ run-exchanges p (told r p msg) xs rest known
    ∙ rw (append_assoc r.sent ((p, msg) ∷ []) (said p xs))
run-exchanges p r (hears packet ∷ xs) rest known =
    run_heard p p r packet (map (event p) xs ++ rest) known (same_peer_refl p)
    ∙ run-exchanges p (heard r packet) xs rest known
    ∙ rw (append_assoc r.delivered (packet ∷ []) (heard_of xs))

-- While only the peer's packets come, sends succeed and the test listens, the task sends all that it is
-- given to the peer and hands on all packets, both in order, and ends at the stop.
pub run_served :
    (p : Peer) (r : ConnRunner) (xs : List Exchange) (more : List Event)
    → r.socket.peer ≡ some p
    → run r (map (event p) xs ++ stop ∷ more) ≡ (after p r xs, stopped)
run_served p r xs more known = run-exchanges p r xs (stop ∷ more) known ∙ (unfold run in refl)

-- One packet from another address panics the task, after any exchange with the peer.
pub run_stray :
    (p stray : Peer) (r : ConnRunner) (xs : List Exchange) (packet : Bytes) (listening : Bool)
    (more : List Event)
    → r.socket.peer ≡ some p
    → same_peer stray p ≡ false
    → run r (map (event p) xs ++ incoming stray packet listening ∷ more) ≡ (after p r xs, panicked)
run_stray p stray r xs packet listening more known other =
    run-exchanges p r xs (incoming stray packet listening ∷ more) known
    ∙ run_foreign p stray (after p r xs) packet listening more known other

abbrev pub learnt : ConnRunner → Peer → Bytes → ConnRunner
learnt r from packet = record r {
  socket = record (r.socket) { peer = some from };
  delivered = r.delivered ++ packet ∷ [];
}

pub run_learns :
    (from : Peer) (r : ConnRunner) (packet : Bytes) (events : List Event)
    → r.socket.peer ≡ none
    → run r (incoming from packet true ∷ events) ≡ run (learnt r from packet) events
unfolding run on_incoming
run_learns from r packet events unknown = rw unknown

-- A server's socket takes the sender of its first packet as its peer, and from then on the task talks to
-- that address only.
pub run-first :
    (from : Peer) (r : ConnRunner) (packet : Bytes) (events : List Event)
    → r.socket.peer ≡ none
    → r.sent ≡ []
    → OnlyPeer from r
        (run r (incoming from packet true ∷ events)).0
        (incoming from packet true ∷ events)
run-first from r packet events unknown silent =
    let later = run-OnlyPeer from (learnt r from packet) events refl (rw silent tt) in
    rw (run_learns from r packet events unknown) (record {
      same_peer = later.same_peer;
      sent_to = later.sent_to;
      came_from = (
        later.came_from.0,
        rw (same_peer_refl from)
              (sym (append_assoc r.delivered (packet ∷ []) (packets_from from events)))
            ∙ later.came_from.1,
      );
    })

-- A server that sends before any packet has come panics.
pub run_too_early :
    (r : ConnRunner) (msg : Bytes) (sent : Sys) (more : List Event)
    → r.socket.peer ≡ none
    → run r (outgoing msg sent ∷ more) ≡ (r, panicked)
unfolding run on_outgoing
run_too_early r msg sent more unknown = rw unknown
