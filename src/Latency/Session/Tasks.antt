-- ===== src/Latency/Session/Tasks.antt =====
-- What the tasks of the two connections send and hand on in a test.
use niceperf.Prelude.{
  ℕ, ◌≡◌, refl, sym, ap, ◌∙◌, none, some, List, [], ◌∷◌, ◌++◌, Bytes, map, append-nil, replicate,
}
use niceperf.Latency.Conn.{Peer, UdpLatency, ConnRunner, Running, waiting, runner_new, run}
use niceperf.Latency.Conn.Peers.{SentTo}
use niceperf.Latency.Conn.Serving.{
  Exchange, says, hears, event, said, after, learnt, run_learns, run-exchanges,
}
use niceperf.Latency.Conn.Serving as Serving
use niceperf.Latency.Conn.Relay.{run_idle}
use niceperf.Latency.Test as Test
use niceperf.Latency.Test.Loop.{sent_of, heard_of}
use niceperf.Latency.Session.{exchanges, task, messages}

module _ (p : Peer) (n : ℕ) where
  said-texts :
      (es : List Test.Event)
      → map (λ (s : Peer × Bytes). s.1) (said p (exchanges n es)) ≡ sent_of n es
  said-texts [] = refl
  said-texts (Test.tick listening ∷ es) = ap (λ l. replicate n 0 ∷ l) (said-texts es)
  said-texts (Test.packet bytes ∷ es) = said-texts es
  said-texts (Test.control bytes ∷ es) = said-texts es
  said-texts (Test.stop running ∷ es) = said-texts es

  -- After the messages of the setup come those of the test.
  pub said-all :
      (xs : List Bytes) (es : List Test.Event)
      → map (λ (s : Peer × Bytes). s.1) (said p (map says xs ++ exchanges n es))
        ≡ xs ++ sent_of n es
  said-all [] es = said-texts es
  said-all (x ∷ xs) es = ap (λ l. x ∷ l) (said-all xs es)

  pub heard-all :
      (xs : List Bytes) (es : List Test.Event)
      → Serving.heard_of (map says xs ++ exchanges n es) ≡ heard_of es
  heard-all (x ∷ xs) es = heard-all xs es
  heard-all [] [] = refl
  heard-all [] (Test.tick listening ∷ es) = heard-all [] es
  heard-all [] (Test.packet bytes ∷ es) = ap (λ l. bytes ∷ l) (heard-all [] es)
  heard-all [] (Test.control bytes ∷ es) = heard-all [] es
  heard-all [] (Test.stop running ∷ es) = heard-all [] es

said-SentTo : (p : Peer) (xs : List Exchange) → SentTo p (said p xs)
said-SentTo p [] = tt
said-SentTo p (says msg ∷ xs) = (refl, said-SentTo p xs)
said-SentTo p (hears packet ∷ xs) = said-SentTo p xs

run-all :
    (p : Peer) (r : ConnRunner) (xs : List Exchange)
    → r.socket.peer ≡ some p
    → run r (map (event p) xs) ≡ (after p r xs, waiting)
run-all p r xs known =
    ap (run r) (sym (append-nil (map (event p) xs)))
    ∙ run-exchanges p r xs [] known
    ∙ run_idle (after p r xs)

-- What a task has done that works on: what it has sent, all to its peer, and what it has handed on.
pub record Done (p : Peer) (r : ConnRunner × Running) (texts packets : List Bytes) : Type 0 where
  pub alive : r.1 ≡ waiting
  pub to_peer : SentTo p r.0.sent
  pub texts_are : messages r.0 ≡ texts
  pub packets_are : r.0.delivered ≡ packets

-- The task of a client, which knows the server.
pub task-Done :
    (socket : UdpLatency) (p : Peer) (n : ℕ) (xs : List Bytes) (es : List Test.Event)
    → socket.peer ≡ some p
    → Done p (task socket p (map says xs ++ exchanges n es)) (xs ++ sent_of n es) (heard_of es)
unfolding task runner_new
task-Done socket p n xs es known =
    rw (run-all p (runner_new socket) (map says xs ++ exchanges n es) known) (record {
      alive = refl;
      to_peer = said-SentTo p (map says xs ++ exchanges n es);
      texts_are = said-all p n xs es;
      packets_are = heard-all p n xs es;
    })

-- The task of a server, which learns who the client is.
pub task_learns-Done :
    (socket : UdpLatency) (p : Peer) (n : ℕ) (first : Bytes) (es : List Test.Event)
    → socket.peer ≡ none
    → Done p (task socket p (hears first ∷ exchanges n es)) (sent_of n es) (first ∷ heard_of es)
unfolding task runner_new
task_learns-Done socket p n first es unknown =
    rw
      (run_learns p (runner_new socket) first (map (event p) (exchanges n es)) unknown
        ∙ run-all p (learnt (runner_new socket) p first) (exchanges n es) refl)
      (record {
        alive = refl;
        to_peer = said-SentTo p (exchanges n es);
        texts_are = said-all p n [] es;
        packets_are = ap (λ l. first ∷ l) (heard-all p n [] es);
      })
