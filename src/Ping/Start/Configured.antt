-- ===== src/Ping/Start/Configured.antt =====
-- What the sockets of the clients and servers are set to once they have started.
use niceperf.Prelude.{ℕ, ◌≡◌, refl, ap, sym, ◌∙◌, true, Option, none, some, [], ◌∷◌, ◌++◌, arith}
use niceperf.Prelude.Outcome.{Outcome, ok, err, panic, unwrap}
use niceperf.Common.Os.{
  IpAddr, Error, Answer, Trace, Os, connect, listen, stream, dgram, tcp, udp, continue, ◌>>=◌,
}
use niceperf.Common.Sockets.{Socket, udp_connect, tcp_listen, udp_new, tcp_new, tcp_connect}
use niceperf.Common.Sockets.Setup.{family}
use niceperf.Common.Sockets.Configured.{
  blank, configured, udp_new-configured, tcp_new-configured, tcp_connect_ok, configured-append,
}
use niceperf.Ping.Args.{TcpOpts, UdpOpts}
use niceperf.Ping.Udp.{UdpClient}
use niceperf.Ping.Tcp.{TcpClient}
use niceperf.Ping.Start.{
  Machine, source_addr, port_or_zero, lift, open_log, udp_client_new, tcp_client_new,
  tcp_server_new,
}

module _ {ℓ κ} {A : Type ℓ} {B : Type κ} where
  continue_ok :
      (r : Outcome Error A) (k : A → Os B) (answer : Answer) (t t' : Trace) (b : B)
      → continue r k answer t ≡ (ok b, t')
      → (a : A) × ((r ≡ ok a) × (k a answer t ≡ (ok b, t')))
  continue_ok (ok a) k answer t t' b e = (a, (refl, e))
  continue_ok (err x) k answer t t' b e = ground arith
  continue_ok panic k answer t t' b e = ground arith

-- A chain that succeeds has succeeded in its first step, and goes on from the trace of that.
bind_ok {ℓ κ} :
    {A : Type ℓ} {B : Type κ} (m : Os A) (k : A → Os B) (answer : Answer) (t t' : Trace) (b : B)
    → (m >>= k) answer t ≡ (ok b, t')
    → (a : A) × (t₁ : Trace) × ((m answer t ≡ (ok a, t₁)) × (k a answer t₁ ≡ (ok b, t')))
bind_ok m k answer t t' b e =
    let (a, (first, later)) = continue_ok (m answer t).0 k answer (m answer t).1 t' b e in
    (a, (m answer t).1, (ap (λ r. (r, (m answer t).1)) first, later))

ok-same {ℓ} :
    {A : Type ℓ} (a b : A) (t t' : Trace)
    → ◌≡◌ {A = Outcome Error A × Trace} (ok a, t) (ok b, t')
    → (a ≡ b) × (t ≡ t')
ok-same a b t t' e = (ap (λ r. elim r.0 [ ok x ↦ x | err x ↦ a | panic ↦ a ]) e, ap (λ r. r.1) e)

unwrap_ok :
    {A : Type 0} (x : Option A) (a : A) → ◌≡◌ {A = Outcome Error A} (unwrap x) (ok a) → x ≡ some a
unwrap_ok none a e = ground arith
unwrap_ok (some b) a e = ap (λ r. elim r [ ok y ↦ some y | err y ↦ none | panic ↦ none ]) e

udp_connect_ok :
    (addr : IpAddr) (port : ℕ) (answer : Answer) (t t' : Trace)
    → udp_connect addr port answer t ≡ (ok tt, t')
    → t' ≡ t ++ connect addr port ∷ []
unfolding udp_connect
udp_connect_ok addr port answer t t' e = sym (ap (λ r. r.1) e)

tcp_listen_ok :
    (backlog : ℕ) (answer : Answer) (t t' : Trace)
    → tcp_listen backlog answer t ≡ (ok tt, t')
    → t' ≡ t ++ listen backlog ∷ []
unfolding tcp_listen
tcp_listen_ok backlog answer t t' e = sym (ap (λ r. r.1) e)

module _ (m : Machine) (o : UdpOpts) (answer : Answer) where
  -- A UDP client that starts has its source address from the options or the interface, and a nonblocking
  -- socket that is bound to it, with the source port or an ephemeral one, and connected to the
  -- destination.
  pub udp_client_new-configured :
      (c : UdpClient) (t : Trace)
      → udp_client_new m o answer [] ≡ (ok c, t)
      → (source_addr m.interfaces o.common_opts ≡ ok c.src_addr)
        × (configured t ≡ record blank {
          opened = some (family (some (c.src_addr, port_or_zero o.src_port)), dgram, some udp);
          nonblocking = true;
          device = o.common_opts.iface;
          local = some (c.src_addr, port_or_zero o.src_port);
          peer = some (o.common_opts.dst_addr, o.dst_port);
        })
  unfolding udp_client_new
  udp_client_new-configured c t e =
      let (src, t₁, (found, e₁)) =
        bind_ok (lift (source_addr m.interfaces o.common_opts)) _ answer [] t c e in
      let (s, t₂, (made, e₂)) =
        bind_ok (udp_new o.common_opts.iface (some (src, port_or_zero o.src_port))) _ answer t₁ t c
          e₁ in
      let (u, t₃, (joined, e₃)) =
        bind_ok (udp_connect o.common_opts.dst_addr o.dst_port) _ answer t₂ t c e₂ in
      let (log, t₄, (opened, e₄)) =
        bind_ok (lift (open_log m o.common_opts.file)) _ answer t₃ t c e₃ in
      let (same, end) = ok-same _ c t₄ t e₄ in
      let src_same = ap (λ d. d.src_addr) same in
      let calls =
        sym end
        ∙ sym (ap (λ r. r.1) opened)
        ∙ udp_connect_ok o.common_opts.dst_addr o.dst_port answer t₂ t₃ joined in
      let socket =
        udp_new-configured o.common_opts.iface (some (src, port_or_zero o.src_port)) answer s t₂
          (rw (sym (ap (λ r. r.1) found)) at made) in
      (ap (λ r. r.0) found ∙ ap ok src_same, rw (calls, configured-append, socket, src_same))

module _ (m : Machine) (o : TcpOpts) (answer : Answer) where
  -- A TCP client that starts is connected to the destination from its source address, has a nonblocking
  -- socket without Nagle's algorithm, and names in its log the congestion control that the socket has.
  pub tcp_client_new-configured :
      (c : TcpClient) (t : Trace)
      → tcp_client_new m o answer [] ≡ (ok c, t)
      → (source_addr m.interfaces o.common_opts ≡ ok c.src_addr)
        × (configured t ≡ record blank {
          opened = some (family (some (c.src_addr, port_or_zero o.src_port)), stream, some tcp);
          nonblocking = true;
          device = o.common_opts.iface;
          local = some (c.src_addr, port_or_zero o.src_port);
          peer = some (o.common_opts.dst_addr, o.dst_port);
          mss = o.mss;
          nodelay = true;
          quickack = true;
          congestion = some c.cc;
        })
  unfolding tcp_client_new
  tcp_client_new-configured c t e =
      let (src, t₁, (found, e₁)) =
        bind_ok (lift (source_addr m.interfaces o.common_opts)) _ answer [] t c e in
      let local = some (src, port_or_zero o.src_port) in
      let (s, t₂, (made, e₂)) =
        bind_ok (tcp_new o.common_opts.iface local o.mss o.cc) _ answer t₁ t c e₁ in
      let (u, t₃, (joined, e₃)) =
        bind_ok (tcp_connect o.common_opts.dst_addr o.dst_port) _ answer t₂ t c e₂ in
      let (log, t₄, (opened, e₄)) =
        bind_ok (lift (open_log m o.common_opts.file)) _ answer t₃ t c e₃ in
      let (cc, t₅, (named, e₅)) = bind_ok (lift (unwrap o.cc)) _ answer t₄ t c e₄ in
      let (same, end) = ok-same _ c t₅ t e₅ in
      let src_same = ap (λ d. d.src_addr) same in
      let connected = tcp_connect_ok o.common_opts.dst_addr o.dst_port answer t₂ t₃ joined in
      let socket =
        tcp_new-configured o.common_opts.iface local o.mss o.cc answer s t₂
          (rw (sym (ap (λ r. r.1) found)) at made) in
      let calls = sym end ∙ sym (ap (λ r. r.1) named) ∙ sym (ap (λ r. r.1) opened) in
      let cc_same = unwrap_ok o.cc cc (ap (λ r. r.0) named) ∙ ap (λ d. some d.cc) same in
      (ap (λ r. r.0) found ∙ ap ok src_same, rw (calls, connected, socket, src_same, cc_same))

-- A TCP server that starts listens without blocking on the destination address and port of its options,
-- on every interface, with a backlog of 128.
pub tcp_server_new-configured :
    (o : TcpOpts) (answer : Answer) (s : Socket) (t : Trace)
    → tcp_server_new o answer [] ≡ (ok s, t)
    → configured t ≡ record blank {
      opened = some (family (some (o.common_opts.dst_addr, o.dst_port)), stream, some tcp);
      nonblocking = true;
      local = some (o.common_opts.dst_addr, o.dst_port);
      backlog = some 128;
      mss = o.mss;
      nodelay = true;
      quickack = true;
      congestion = o.cc;
    }
unfolding tcp_server_new
tcp_server_new-configured o answer s t e =
    let local = some (o.common_opts.dst_addr, o.dst_port) in
    let (s₁, t₁, (made, e₁)) = bind_ok (tcp_new none local o.mss o.cc) _ answer [] t s e in
    let (u, t₂, (listens, e₂)) = bind_ok (tcp_listen 128) _ answer t₁ t s e₁ in
    let calls = sym (ok-same _ s t₂ t e₂).1 ∙ tcp_listen_ok 128 answer t₁ t₂ listens in
    let socket = tcp_new-configured none local o.mss o.cc answer s₁ t₁ made in
    rw (calls, configured-append, socket)
