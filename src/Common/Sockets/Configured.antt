-- ===== src/Common/Sockets/Configured.antt =====
-- The options of a socket after its calls, and what each constructor guarantees of them.
use mathlib.Core.List.{foldl, foldl-append}
use Prim.Native.String.{String}
use niceperf.Prelude.{
  ℕ, ◌≡◌, refl, ap, sym, ◌∙◌, Bool, true, false, Option, none, some, List, [], ◌∷◌, ◌++◌, arith,
  Option-cases, inl, inr,
}
use niceperf.Prelude.Outcome.{ok, err}
use niceperf.Common.Os.{
  IpAddr, v6, Domain, ipv4, SockType, dgram, stream, Protocol, udp, tcp, Call, socket,
  set_nonblocking, bind_device, bind, connect, set_reuse_address, listen, set_mss, set_nodelay,
  set_quickack, set_congestion, io, report, Error, Answer, Trace, pure, run_plan, ◌>>◌,
}
use niceperf.Common.Os.Plan.{run_plan_ok, EndsAt, run_plan-Ends}
use niceperf.Common.Sockets.{Socket, udp_new, tcp_new, new_tcp_socket, tcp_connect}
use niceperf.Common.Sockets.Setup.{
  udp_new-plan, tcp_new-plan, new_tcp_socket-plan, udp_plan, tcp_plan, raw_tcp_plan, family,
  port_or_any, open_plan, planned,
}

pub record Options : Type 0 where
  pub opened : Option (Domain × SockType × Option Protocol)
  pub nonblocking : Bool
  pub device : Option String
  pub local : Option (IpAddr × ℕ)
  pub peer : Option (IpAddr × ℕ)
  pub reuse_address : Bool
  pub backlog : Option ℕ
  pub mss : Option ℕ
  pub nodelay : Bool
  pub quickack : Bool
  pub congestion : Option String

-- Before the first call.
abbrev pub blank : Options
blank = record {
  opened = none;
  nonblocking = false;
  device = none;
  local = none;
  peer = none;
  reuse_address = false;
  backlog = none;
  mss = none;
  nodelay = false;
  quickack = false;
  congestion = none;
}

-- What an accepted call sets.
abbrev pub apply : Options → Call → Options
apply o (socket d k p) = record blank { opened = some (d, k, p) }
apply o (set_nonblocking b) = record o { nonblocking = b }
apply o (bind_device d) = record o { device = some d }
apply o (bind a p) = record o { local = some (a, p) }
apply o (connect a p) = record o { peer = some (a, p) }
apply o (set_reuse_address b) = record o { reuse_address = b }
apply o (listen n) = record o { backlog = some n }
apply o (set_mss n) = record o { mss = some n }
apply o (set_nodelay b) = record o { nodelay = b }
apply o (set_quickack b) = record o { quickack = b }
apply o (set_congestion c) = record o { congestion = some c }

abbrev pub configured : Trace → Options
configured = foldl apply blank

udp_plan-configured :
    (interface : Option String) (address : Option (IpAddr × ℕ))
    → configured (udp_plan interface address) ≡ record blank {
      opened = some (family address, dgram, some udp);
      nonblocking = true;
      device = interface;
      local = address;
    }
udp_plan-configured none none = refl
udp_plan-configured none (some a) = refl
udp_plan-configured (some d) none = refl
udp_plan-configured (some d) (some a) = refl

-- A UDP socket that `new` returns is nonblocking and of its address's family, and is bound to just the
-- interface and the address that were asked for; no other option is set.
pub udp_new-configured :
    (interface : Option String) (address : Option (IpAddr × ℕ)) (answer : Answer) (s : Socket)
    (t : Trace)
    → udp_new interface address answer [] ≡ (ok s, t)
    → configured t ≡ record blank {
      opened = some (family address, dgram, some udp);
      nonblocking = true;
      device = interface;
      local = address;
    }
udp_new-configured interface address answer s t e =
    let made =
      run_plan_ok _ answer (udp_plan interface address) [] t s
        (sym (udp_new-plan interface address answer []) ∙ e) in
    ap configured made.0 ∙ udp_plan-configured interface address

tcp_plan-configured :
    (interface : Option String) (address : Option (IpAddr × ℕ)) (mss : Option ℕ)
    (cc : Option String)
    → configured (tcp_plan interface address mss cc) ≡ record blank {
      opened = some (family address, stream, some tcp);
      nonblocking = true;
      device = interface;
      local = address;
      mss = mss;
      nodelay = true;
      quickack = true;
      congestion = cc;
    }
tcp_plan-configured none none none none = refl
tcp_plan-configured _ _ _ _ = ground arith

-- A TCP socket that `new` returns is nonblocking with Nagle's algorithm off and quick
-- acknowledgements on, and has just the interface, the address, the segment size and the congestion
-- control that were asked for.
pub tcp_new-configured :
    (interface : Option String) (address : Option (IpAddr × ℕ)) (mss : Option ℕ)
    (cc : Option String) (answer : Answer) (s : Socket) (t : Trace)
    → tcp_new interface address mss cc answer [] ≡ (ok s, t)
    → configured t ≡ record blank {
      opened = some (family address, stream, some tcp);
      nonblocking = true;
      device = interface;
      local = address;
      mss = mss;
      nodelay = true;
      quickack = true;
      congestion = cc;
    }
tcp_new-configured interface address mss cc answer s t e =
    let made =
      run_plan_ok _ answer (tcp_plan interface address mss cc) [] t s
        (sym (tcp_new-plan interface address mss cc answer []) ∙ e) in
    ap configured made.0 ∙ tcp_plan-configured interface address mss cc

-- `TCPSocket::new` makes its calls in the order of the plan and stops at the first refusal, whose error
-- it returns; it never panics.
pub tcp_new-Ends :
    (interface : Option String) (address : Option (IpAddr × ℕ)) (mss : Option ℕ)
    (cc : Option String) (answer : Answer) (t : Trace)
    → EndsAt
        (record { domain = family address; kind = stream; protocol = some tcp })
        answer
        t
        (tcp_plan interface address mss cc)
        (tcp_new interface address mss cc answer t)
tcp_new-Ends interface address mss cc answer t =
    rw (tcp_new-plan interface address mss cc answer t)
      (run_plan-Ends _ answer (tcp_plan interface address mss cc) t)

-- `EAFNOSUPPORT` on Linux.
abbrev pub eafnosupport : ℕ
eafnosupport = 97

-- What Linux does: no IPv4 socket is bound to an IPv6 address.
abbrev pub ChecksFamily : Answer → Type 0
ChecksFamily answer =
    (t : Trace) (a port : ℕ) (k : SockType) (p : Option Protocol)
    → (configured t).opened ≡ some (ipv4, k, p)
    → answer t (bind (v6 a) port) ≡ some eafnosupport

-- Up to the bind, a call is refused or the socket is an IPv4 socket; so the bind is refused.
open_for_v6 :
    (interface : Option String) (a port : ℕ) (answer : Answer)
    → ChecksFamily answer
    → (e : Error) × ((run_plan
          (open_plan ipv4 stream none interface ++ bind (v6 a) port ∷ [])
          answer
          []).0
        ≡ err e)
unfolding run_plan
open_for_v6 none a port answer checks =
    let opening = socket ipv4 stream none in
    let last = checks (opening ∷ set_nonblocking true ∷ []) a port stream none refl in
    elim (Option-cases (answer [] opening)) [
      | inr (e, refusal) ↦ (io e, rw refusal)
      | inl ok₁ ↦ elim (Option-cases (answer (opening ∷ []) (set_nonblocking true))) [
        | inr (e, refusal) ↦ (io e, rw (ok₁, refusal))
        | inl ok₂ ↦ (io eafnosupport, rw (ok₁, ok₂, last))
      ]
    ]
open_for_v6 (some d) a port answer checks =
    let opening = socket ipv4 stream none in
    let before = opening ∷ set_nonblocking true ∷ [] in
    let last = checks (before ++ bind_device d ∷ []) a port stream none refl in
    elim (Option-cases (answer [] opening)) [
      | inr (e, refusal) ↦ (io e, rw refusal)
      | inl ok₁ ↦ elim (Option-cases (answer (opening ∷ []) (set_nonblocking true))) [
        | inr (e, refusal) ↦ (io e, rw (ok₁, refusal))
        | inl ok₂ ↦ elim (Option-cases (answer before (bind_device d))) [
          | inr (e, refusal) ↦ (report (bind_device d) e, rw (ok₁, ok₂, refusal))
          | inl ok₃ ↦ (io eafnosupport, rw (ok₁, ok₂, ok₃, last))
        ]
      ]
    ]

planned-err :
    (cs : List Call) (s : Socket) (answer : Answer) (t : Trace) (e : Error)
    → (run_plan cs answer t).0 ≡ err e
    → (planned cs s answer t).0 ≡ err e
planned-err cs s answer t e h = rw h

-- Where the system binds no IPv4 socket to an IPv6 address, as Linux does, `new_tcp_socket` fails for
-- every IPv6 address, whatever the interface and the port are and whatever else the system answers.
pub new_tcp_socket-v6 :
    (interface : Option String) (a : ℕ) (port : Option ℕ) (answer : Answer)
    → ChecksFamily answer
    → (e : Error) × ((new_tcp_socket interface (v6 a) port answer []).0 ≡ err e)
new_tcp_socket-v6 interface a port answer checks =
    let (e, failed) = open_for_v6 interface a (port_or_any port) answer checks in
    (
      e,
      ap (λ r. r.0) (new_tcp_socket-plan interface (v6 a) port answer [])
          ∙ planned-err (raw_tcp_plan interface (v6 a) port) _ answer [] e failed,
    )

pub configured-append : (t : Trace) (c : Call) → configured (t ++ c ∷ []) ≡ apply (configured t) c
configured-append t c = rw foldl-append

connect_calls : IpAddr → ℕ → List Call
connect_calls addr port = set_nonblocking false ∷ connect addr port ∷ set_nonblocking true ∷ []

tcp_connect-plan :
    (addr : IpAddr) (port : ℕ) (answer : Answer) (t : Trace)
    → tcp_connect addr port answer t ≡ (run_plan (connect_calls addr port) >> pure tt) answer t
unfolding tcp_connect run_plan connect_calls
tcp_connect-plan addr port answer t = ground arith

-- A socket that `connect` connects has its peer and is nonblocking again.
pub tcp_connect_ok :
    (addr : IpAddr) (port : ℕ) (answer : Answer) (t t' : Trace)
    → tcp_connect addr port answer t ≡ (ok tt, t')
    → configured t' ≡ record (configured t) { nonblocking = true; peer = some (addr, port) }
unfolding connect_calls
tcp_connect_ok addr port answer t t' e =
    let made =
      run_plan_ok tt answer (connect_calls addr port) t t' tt
        (sym (tcp_connect-plan addr port answer t) ∙ e) in
    ap configured made.0 ∙ rw foldl-append

-- Where the system refuses the connection, the caller gets its error and the socket stays blocking.
pub tcp_connect_refused :
    (addr : IpAddr) (port n : ℕ) (answer : Answer) (t : Trace)
    → answer t (set_nonblocking false) ≡ none
    → answer (t ++ set_nonblocking false ∷ []) (connect addr port) ≡ some n
    → ((tcp_connect addr port answer t).0 ≡ err (io n))
      × ((configured (tcp_connect addr port answer t).1).nonblocking ≡ false)
unfolding tcp_connect
tcp_connect_refused addr port n answer t h k =
    rw (h, k) (refl, rw (configured-append, configured-append))
