-- ===== src/Latency/Runner/Stages.antt =====
-- How far a handshake of two sides can have come, and that it can be completed.
use mathlib.Core.Path.{subst}
use niceperf.Prelude.{
  ℕ, ◌≤◌, ◌≡◌, ◌≢◌, refl, sym, ap, ◌∙◌, true, some, List, [], ◌∷◌, ◌++◌, Bytes, All, All-snoc,
  length, drop-append,
}
use niceperf.Prelude.Outcome.{Outcome, ok, err}
use niceperf.Latency.Args.{Config}
use niceperf.Latency.Protocol.{handshake, Codec}
use niceperf.Latency.Conn.{ConnCtx}
use niceperf.Latency.Runner.{
  client, server, Error, tick, control, packet, timeout, handshake_timeout, waiting, ended, shake,
}
use niceperf.Latency.Runner.Rounds.{shake-tick, shake-control, shake-packet, shake-timeout}
use niceperf.Latency.Runner.Link.{
  Link, client_after, server_after, Step, client_ticks, client_reads, server_receives,
  server_times_out, server_over, Reach, here, next, Reach-trans,
}

-- Where the handshake stands: not heard yet, answered, heard by both, or not heard for ten seconds.
pub data Stage (enc : Bytes) (l : Link) : Type 0 where
  unheard : l.client_at ≡ waiting → l.server_at ≡ waiting → l.to_client ≡ [] → Stage enc l
  answered :
      l.client_at ≡ waiting → l.server_at ≡ ended (ok tt) → l.to_client ≡ enc ∷ [] → Stage enc l
  complete :
      l.client_at ≡ ended (ok tt) → l.server_at ≡ ended (ok tt) → l.to_client ≡ [] → Stage enc l
  timed_out :
      l.client_at ≡ waiting
      → l.server_at ≡ ended (err handshake_timeout)
      → l.to_client ≡ []
      → Stage enc l

pub record Inv (id : ℕ) (cfg : Config) (mine theirs : ConnCtx) (enc : Bytes) (l : Link)
    : Type 0 where
  pub client_id : l.client_side.id ≡ some id
  pub client_cfg : l.client_side.test_cfg ≡ some cfg
  pub client_ctx : l.client_side.ctx ≡ some mine
  pub server_cfg : l.server_side.test_cfg ≡ some cfg
  pub server_ctx : l.server_side.ctx ≡ some theirs
  pub queued : All (λ p. p ≡ enc) l.client_side.queued
  pub stage : Stage enc l

pub ok-ne-err : ended (ok tt) ≢ ended (err handshake_timeout)
ok-ne-err e = cc

waiting-ne-ended : {r : Outcome Error (Unit {0})} → waiting ≢ ended r
waiting-ne-ended e = cc

nil-ne-cons : {x : Bytes} {xs : List Bytes} → [] ≢ x ∷ xs
nil-ne-cons e = cc

cons-eq-cons : {x y : Bytes} {xs ys : List Bytes} → x ∷ xs ≡ y ∷ ys → (x ≡ y) × (xs ≡ ys)
cons-eq-cons e = (cc, cc)

mem_All :
    (enc : Bytes) (before : List Bytes) (bytes : Bytes) (later xs : List Bytes)
    → xs ≡ before ++ bytes ∷ later
    → All (λ p. p ≡ enc) xs
    → bytes ≡ enc
mem_All enc [] bytes later xs e h = (subst (All (λ p. p ≡ enc)) e h).0
mem_All enc (x ∷ before) bytes later xs e h =
    mem_All enc before bytes later (before ++ bytes ∷ later) refl (subst (All (λ p. p ≡ enc)) e h).1

module _ (b : Codec) (id : ℕ) (cfg : Config) (mine theirs : ConnCtx) (enc : Bytes)
    (code : b.serialize (handshake id) ≡ some enc) (read : b.deserialize enc ≡ some (handshake id))
    (short : length enc ≤ 1024) where
  ticks-Inv :
      {l : Link}
      → l.client_at ≡ waiting
      → Inv id cfg mine theirs enc l
      → Inv id cfg mine theirs enc (client_after l (shake b client (tick true ∷ []) l.client_side))
  ticks-Inv {l} at i =
      rw (shake-tick b l.client_side id enc mine i.client_id i.client_ctx code) (record {
        client_id = i.client_id;
        client_cfg = i.client_cfg;
        client_ctx = i.client_ctx;
        server_cfg = i.server_cfg;
        server_ctx = i.server_ctx;
        queued = All-snoc (λ p. p ≡ enc) l.client_side.queued enc i.queued refl;
        stage = elim (i.stage) [
          | unheard c s t ↦ unheard refl s t
          | answered c s t ↦ answered refl s t
          | complete c s t ↦ absurd (waiting-ne-ended (sym at ∙ c))
          | timed_out c s t ↦ timed_out refl s t
        ];
      })

  reads-Inv :
      {l : Link} (bytes : Bytes) (rest : List Bytes)
      → l.client_at ≡ waiting
      → l.to_client ≡ bytes ∷ rest
      → Inv id cfg mine theirs enc l
      → Inv id cfg mine theirs enc (
          client_after
            (record l { to_client = rest })
            (shake b client (control bytes ∷ []) l.client_side))
  reads-Inv {l} bytes rest at split i = elim (i.stage) [
    | unheard c s t ↦ absurd (nil-ne-cons (sym t ∙ split))
    | complete c s t ↦ absurd (nil-ne-cons (sym t ∙ split))
    | timed_out c s t ↦ absurd (nil-ne-cons (sym t ∙ split))
    | answered c s t ↦
        let (same, none_left) = cons-eq-cons (sym split ∙ t) in
        rw
          (
            same,
            shake-control b l.client_side id enc mine cfg i.client_id i.client_ctx i.client_cfg read
                short,
          )
          (record {
            client_id = i.client_id;
            client_cfg = i.client_cfg;
            client_ctx = i.client_ctx;
            server_cfg = i.server_cfg;
            server_ctx = i.server_ctx;
            queued = i.queued;
            stage = complete refl s none_left;
          })
  ]

  receives-Inv :
      {l : Link} (before : List Bytes) (bytes : Bytes) (later : List Bytes)
      → l.server_at ≡ waiting
      → l.client_side.queued ≡ before ++ bytes ∷ later
      → Inv id cfg mine theirs enc l
      → Inv id cfg mine theirs enc
          (server_after l (shake b server (packet bytes true ∷ []) l.server_side))
  receives-Inv {l} before bytes later at split i = elim (i.stage) [
    | answered c s t ↦ absurd (waiting-ne-ended (sym at ∙ s))
    | complete c s t ↦ absurd (waiting-ne-ended (sym at ∙ s))
    | timed_out c s t ↦ absurd (waiting-ne-ended (sym at ∙ s))
    | unheard c s t ↦
        rw
          (
            mem_All enc before bytes later l.client_side.queued split i.queued,
            shake-packet b l.server_side id enc theirs cfg i.server_ctx i.server_cfg code read,
          )
          (record {
            client_id = i.client_id;
            client_cfg = i.client_cfg;
            client_ctx = i.client_ctx;
            server_cfg = i.server_cfg;
            server_ctx = i.server_ctx;
            queued = i.queued;
            stage = answered c refl (
                rw (
                  t,
                  drop-append (length l.server_side.written) l.server_side.written (enc ∷ []) refl,
                ));
          })
  ]

  times_out-Inv :
      {l : Link}
      → l.server_at ≡ waiting
      → Inv id cfg mine theirs enc l
      → Inv id cfg mine theirs enc (server_over l (shake b server (timeout ∷ []) l.server_side))
  times_out-Inv {l} at i = rw (shake-timeout b l.server_side) (record {
    client_id = i.client_id;
    client_cfg = i.client_cfg;
    client_ctx = i.client_ctx;
    server_cfg = i.server_cfg;
    server_ctx = i.server_ctx;
    queued = i.queued;
    stage = elim (i.stage) [
      | unheard c s t ↦ timed_out c refl t
      | answered c s t ↦ absurd (waiting-ne-ended (sym at ∙ s))
      | complete c s t ↦ absurd (waiting-ne-ended (sym at ∙ s))
      | timed_out c s t ↦ absurd (waiting-ne-ended (sym at ∙ s))
    ];
  })

  Step-Inv :
      {l l' : Link} → Step b l l' → Inv id cfg mine theirs enc l → Inv id cfg mine theirs enc l'
  Step-Inv (client_ticks at e) i = rw e (ticks-Inv at i)
  Step-Inv (client_reads bytes rest at split e) i = rw e (reads-Inv bytes rest at split i)
  Step-Inv (server_receives before bytes later at split e) i =
      rw e (receives-Inv before bytes later at split i)
  Step-Inv (server_times_out at e) i = rw e (times_out-Inv at i)

  -- Whatever ticks, packets and answers come in whatever order, and whichever packets are lost or come
  -- again, no side fails but a server that hears nothing for ten seconds, and the client's handshake is
  -- complete only when the server's is.
  pub Reach-Inv :
      {l l' : Link} → Inv id cfg mine theirs enc l → Reach b l l' → Inv id cfg mine theirs enc l'
  Reach-Inv i here = i
  Reach-Inv i (next r step) = Step-Inv step (Reach-Inv i r)

  from_answered :
      (l : Link)
      → l.server_at ≡ ended (ok tt)
      → Inv id cfg mine theirs enc l
      → (l' : Link) × Reach b l l' × (l'.client_at ≡ ended (ok tt)) × (l'.server_at ≡ ended (ok tt))
  from_answered l at i = elim (i.stage) [
    | unheard c s t ↦ absurd (waiting-ne-ended (sym s ∙ at))
    | complete c s t ↦ (l, here, c, s)
    | timed_out c s t ↦ absurd (ok-ne-err (sym at ∙ s))
    | answered c s t ↦
        let heard =
          shake-control b l.client_side id enc mine cfg i.client_id i.client_ctx i.client_cfg read
            short in
        (
          client_after (record l { to_client = [] })
              (shake b client (control enc ∷ []) l.client_side),
          next here (client_reads enc [] c t refl),
          ap (λ r. r.0) heard,
          s,
        )
  ]

  -- From every state of the handshake that keeps the invariant, it can still be completed on both sides,
  -- unless the server has given up after its ten seconds. The client's handshake has an encoding of 1024
  -- bytes at most, which is read back.
  pub Inv-completes :
      (l : Link)
      → l.server_at ≢ ended (err handshake_timeout)
      → Inv id cfg mine theirs enc l
      → (l' : Link) × Reach b l l' × (l'.client_at ≡ ended (ok tt)) × (l'.server_at ≡ ended (ok tt))
  Inv-completes l in_time i = elim (i.stage) [
    | timed_out c s t ↦ absurd (in_time s)
    | complete c s t ↦ from_answered l s i
    | answered c s t ↦ from_answered l s i
    | unheard c s t ↦
        let ticked = shake-tick b l.client_side id enc mine i.client_id i.client_ctx code in
        let l₁ = client_after l (shake b client (tick true ∷ []) l.client_side) in
        let sent : l₁.client_side.queued ≡ l.client_side.queued ++ enc ∷ [] =
          ap (λ r. r.1.queued) ticked in
        let i₁ = ticks-Inv c i in
        let l₂ = server_after l₁ (shake b server (packet enc true ∷ []) l₁.server_side) in
        let got =
          shake-packet b l₁.server_side id enc theirs cfg i₁.server_ctx i₁.server_cfg code read in
        let i₂ = receives-Inv l.client_side.queued enc [] s sent i₁ in
        let (l₃, r, done, both) = from_answered l₂ (ap (λ q. q.0) got) i₂ in
        (
          l₃,
          Reach-trans
              (next (next here (client_ticks c refl))
                (server_receives l.client_side.queued enc [] s sent refl))
              r,
          done,
          both,
        )
  ]
