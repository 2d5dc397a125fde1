-- ===== src/Common/Quic/Runs.antt =====
-- The certificate's files at concrete inputs.
use niceperf.Prelude.{◌≡◌, refl, Bool, true, false, none, some, [], ◌∷◌, Bytes}
use niceperf.Prelude.Outcome.{ok}
use niceperf.Common.Quic.{
  missing, holds, Dir, ServerConfig, Tools, server_transport, generate_pair, load_pair,
  with_single_cert, configure_server,
}
use niceperf.Common.Quic.Certificate.{HoldsPair, configure_server-again}

abbrev any_pair : Bytes → Bytes → Bool
any_pair cert key = true

-- The first start makes a pair and can write it, the second could do neither.
abbrev first : Tools
first = record {
  generate = some (1 ∷ [], 2 ∷ []);
  writes_cert = true;
  writes_key = true;
  accepts = any_pair;
}

abbrev second : Tools
second = record { generate = none; writes_cert = false; writes_key = false; accepts = any_pair }

abbrev config : ServerConfig
config = record { cert_chain = 1 ∷ []; private_key = 2 ∷ []; transport = server_transport }

abbrev written : Dir
written = record { cert = holds (1 ∷ []); key = holds (2 ∷ []) }

configure_server-again_example :
    HoldsPair (1 ∷ [], 2 ∷ []) written
    × (1 ∷ [] ≡ config.cert_chain)
    × (configure_server second written ≡ (ok (config, 1 ∷ []), written))
unfolding configure_server load_pair generate_pair with_single_cert
configure_server-again_example =
    configure_server-again first second (record { cert = missing; key = missing }) written config
      (1 ∷ []) refl refl
