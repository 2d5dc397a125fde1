-- ===== src/Common/Quic/Certificate.antt =====
-- What becomes of the certificate's files.
use Prim.Native.String.{String}
use mathlib.Core.Path.{subst}
use niceperf.Prelude.{
  ◌≡◌, refl, sym, ap, ◌∙◌, true, Option, some, Bytes, arith, Bool-cases, Option-cases, inl, inr,
}
use niceperf.Prelude.Outcome.{Outcome, ok, err, panic}
use niceperf.Common.Quic.{
  Error, Entry, missing, unreadable, holds, Dir, ServerConfig, ClientConfig, Tools, continue, pure,
  server_transport, client_transport, Shown, verify_server_cert, generate_pair, load_pair,
  with_single_cert, configure_server, configure_client, path_or_default,
}

-- The two files hold the pair.
abbrev pub HoldsPair : Bytes × Bytes → Dir → Type 0
HoldsPair (cert, key) d = (d.cert ≡ holds cert) × (d.key ≡ holds key)

abbrev Keeps : Outcome Error (Bytes × Bytes) × Dir → Type 0
Keeps (ok pair, d) = HoldsPair pair d
Keeps (err e, d) = Unit
Keeps (panic, d) = Unit

generate_pair-Keeps : (t : Tools) (d : Dir) → Keeps (generate_pair t d)
unfolding generate_pair
generate_pair-Keeps t d = elim (Option-cases t.generate) [
  | inl nothing ↦ rw nothing tt
  | inr ((cert, key), new) ↦ elim (Bool-cases t.writes_cert) [
    | inr refused ↦ rw (new, refused) tt
    | inl first ↦ elim (Bool-cases t.writes_key) [
      | inr refused ↦ rw (new, first, refused) tt
      | inl second ↦ rw (new, first, second) (refl, refl)
    ]
  ]
]

load_pair-Keeps :
    (t : Tools) (cert key : Entry) (d : Dir)
    → d.cert ≡ cert
    → d.key ≡ key
    → Keeps (load_pair t cert key d)
unfolding load_pair
load_pair-Keeps t (holds cert) (holds key) d c k = (c, k)
load_pair-Keeps t (holds cert) missing d c k = generate_pair-Keeps t d
load_pair-Keeps t (holds cert) unreadable d c k = tt
load_pair-Keeps t missing key d c k = generate_pair-Keeps t d
load_pair-Keeps t unreadable key d c k = tt

ok_inj : {p q : Bytes × Bytes} → ◌≡◌ {A = Outcome Error (Bytes × Bytes)} (ok p) (ok q) → p ≡ q
ok_inj {p} e = ap (λ r. elim r [ ok x ↦ x | err x ↦ p | panic ↦ p ]) e

load_pair-held :
    (t : Tools) (cert key : Entry) (a b : Bytes) (d : Dir)
    → cert ≡ holds a
    → key ≡ holds b
    → load_pair t cert key d ≡ (ok (a, b), d)
unfolding load_pair
load_pair-held t cert key a b d c k = rw (c, k)

continue_ok :
    {A B : Type 0} (r : Outcome Error A × Dir) (f : A → Dir → Outcome Error B × Dir) (v : B)
    (d' : Dir)
    → continue r.0 f r.1 ≡ (ok v, d')
    → (a : A) × (r.0 ≡ ok a) × (f a r.1 ≡ (ok v, d'))
continue_ok (ok a, d) f v d' e = (a, refl, e)
continue_ok (err x, d) f v d' e = absurd (ground arith)
continue_ok (panic, d) f v d' e = absurd (ground arith)

Keeps-ok :
    (r : Outcome Error (Bytes × Bytes) × Dir) (pair : Bytes × Bytes)
    → Keeps r
    → r.0 ≡ ok pair
    → HoldsPair pair r.1
Keeps-ok (ok p, d) pair k e = subst (λ q. HoldsPair q d) (ok_inj e) k
Keeps-ok (err x, d) pair k e = absurd (ground arith)
Keeps-ok (panic, d) pair k e = absurd (ground arith)

configured :
    (t : Tools) (pair : Bytes × Bytes) (d d' : Dir) (config : ServerConfig) (cert : Bytes)
    → continue {B = ServerConfig × Bytes}
        (with_single_cert t pair.0 pair.1)
        (λ c. pure (c, pair.0))
        d
      ≡ (ok (config, cert), d')
    → (t.accepts pair.0 pair.1 ≡ true)
      × (◌≡◌ {A = ServerConfig}
          (record { cert_chain = pair.0; private_key = pair.1; transport = server_transport })
          config)
      × (pair.0 ≡ cert)
      × (d ≡ d')
unfolding with_single_cert
configured t pair d d' config cert e = elim (Bool-cases (t.accepts pair.0 pair.1)) [
  | inr refused ↦ absurd (ground arith)
  | inl taken ↦
      let e' = rw (taken, with_single_cert) at e in
      (
        taken,
        ap (λ r. elim r.0 [ ok v ↦ v.0 | err x ↦ config | panic ↦ config ]) e',
        ap (λ r. elim r.0 [ ok v ↦ v.1 | err x ↦ cert | panic ↦ cert ]) e',
        ap (λ r. r.1) e',
      )
]

-- Once the server is configured, both files hold the pair that it uses, and every later start, with
-- whatever new pair at hand and even if the files cannot be written, uses the same and leaves them.
pub configure_server-again :
    (t later : Tools) (d d' : Dir) (config : ServerConfig) (cert : Bytes)
    → later.accepts ≡ t.accepts
    → configure_server t d ≡ (ok (config, cert), d')
    → HoldsPair (config.cert_chain, config.private_key) d'
      × (cert ≡ config.cert_chain)
      × (configure_server later d' ≡ (ok (config, cert), d'))
unfolding configure_server with_single_cert
configure_server-again t later d d' config cert same e =
    let (pair, loaded, rest) = continue_ok (load_pair t d.cert d.key d) _ (config, cert) d' e in
    let (taken, made, same_cert, end) =
      configured t pair (load_pair t d.cert d.key d).1 d' config cert rest in
    let held =
      Keeps-ok (load_pair t d.cert d.key d) pair (load_pair-Keeps t d.cert d.key d refl refl)
        loaded in
    let kept = subst (HoldsPair pair) end held in
    (
      subst (λ c. HoldsPair (c.cert_chain, c.private_key) d') made kept,
      sym same_cert ∙ ap (λ (c : ServerConfig). c.cert_chain) made,
      rw
          (
            load_pair-held later d'.cert d'.key pair.0 pair.1 d' kept.0 kept.1,
            same,
            taken,
            made,
            same_cert,
          )
          refl,
    )

-- The certificate file must be there for a client, and what it holds is not used: whatever it is, the
-- configuration is the same, and its verifier takes every certificate that a server shows.
pub configure_client-ignores :
    (cert_path : Option String) (directory : String) (read read' : String → String → Entry)
    (bytes bytes' : Bytes)
    → read directory (path_or_default cert_path) ≡ holds bytes
    → read' directory (path_or_default cert_path) ≡ holds bytes'
    → (config : ClientConfig) × (configure_client cert_path (some directory) read ≡ ok config)
      × (configure_client cert_path (some directory) read' ≡ ok config)
      × ((shown : Shown) → config.verifier shown ≡ ok tt)
unfolding configure_client
configure_client-ignores cert_path directory read read' bytes bytes' h h' = (
  record { verifier = verify_server_cert; key_log = true; transport = client_transport },
  rw (h, configure_client),
  rw (h', configure_client),
  (unfold verify_server_cert in λ shown. refl),
)
