-- ===== src/Latency/Runner/Link.antt =====
-- Two sides that shake hands: the server's answers arrive in order, and of the client's packets any one may
-- arrive at any time, again or never. The server's ten seconds may pass before one has come. Those of the
-- client are put off by each tick of its timer. Writes and sends succeed.
use niceperf.Prelude.{◌≡◌, true, List, [], ◌∷◌, ◌++◌, Bytes, length, drop}
use niceperf.Latency.Protocol.{Codec}
use niceperf.Latency.Runner.{
  client, server, TestRunner, tick, control, packet, timeout, Progress, waiting, shake,
}

-- The two sides, how far each has come, and what the server has written that the client has not read.
pub record Link : Type 0 where
  pub client_side : TestRunner
  pub client_at : Progress
  pub server_side : TestRunner
  pub server_at : Progress
  pub to_client : List Bytes

abbrev pub client_after : Link → Progress × TestRunner → Link
client_after l (at, c) = record l { client_side = c; client_at = at }

-- What the server writes is on its way.
abbrev pub server_after : Link → Progress × TestRunner → Link
server_after l (at, s) = record l {
  server_side = s;
  server_at = at;
  to_client = l.to_client ++ drop (length l.server_side.written) s.written;
}

-- What ends a server that writes nothing.
abbrev pub server_over : Link → Progress × TestRunner → Link
server_over l (at, s) = record l { server_side = s; server_at = at }

pub data Step (b : Codec) (l l' : Link) : Type 0 where
  client_ticks :
      l.client_at ≡ waiting
      → l' ≡ client_after l (shake b client (tick true ∷ []) l.client_side)
      → Step b l l'
  client_reads :
      (bytes : Bytes) (rest : List Bytes)
      → l.client_at ≡ waiting
      → l.to_client ≡ bytes ∷ rest
      → l'
        ≡ client_after
            (record l { to_client = rest })
            (shake b client (control bytes ∷ []) l.client_side)
      → Step b l l'
  server_receives :
      (before : List Bytes) (bytes : Bytes) (later : List Bytes)
      → l.server_at ≡ waiting
      → l.client_side.queued ≡ before ++ bytes ∷ later
      → l' ≡ server_after l (shake b server (packet bytes true ∷ []) l.server_side)
      → Step b l l'
  server_times_out :
      l.server_at ≡ waiting
      → l' ≡ server_over l (shake b server (timeout ∷ []) l.server_side)
      → Step b l l'

pub data Reach (b : Codec) (l : Link) : Link → Type 0 where
  here : Reach b l l
  next : {m n : Link} → Reach b l m → Step b m n → Reach b l n

pub Reach-trans : {b : Codec} {l m n : Link} → Reach b l m → Reach b m n → Reach b l n
Reach-trans r here = r
Reach-trans r (next q step) = next (Reach-trans r q) step
