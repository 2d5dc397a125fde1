-- ===== src/Latency/Runs.antt =====
-- Concrete inputs for the theorems on a test: an encoding of the messages that the samples exchange, a
-- system that accepts every call, and two runners.
mod Handshakes
mod Tests
mod Connections
mod Servers
mod Sessions
use Prim.Native.String.{String}
use mathlib.Core.Path.{subst}
use niceperf.Prelude.{
  ℕ, zero, suc, ◌≡◌, refl, sym, ap, ◌∙◌, true, Option, none, some, List, [], ◌∷◌, Bytes, arith,
}
use niceperf.Common.Os.{IpAddr, v4, v6, Answer}
use niceperf.Latency.Args.{Config, CommonOpts, UdpOpts, ProtocolType, tcp, udp, quic}
use niceperf.Latency.Protocol.{MessageType, new_test, handshake, error, Codec, IsCodec}

-- The code of a handshake is its id, that of a test over UDP its id, port and address, with the length
-- and the interval if both are there, and no further options.
abbrev udp_code : ℕ → IpAddr → ℕ → Bytes → Bytes
udp_code id (v4 a) port tail = id ∷ port ∷ 0 ∷ a ∷ tail
udp_code id (v6 a) port tail = id ∷ port ∷ 1 ∷ a ∷ tail

abbrev proto_code : ℕ → ProtocolType → Option Bytes → Option Bytes
proto_code id (udp o) (some tail) = some (udp_code id o.dst_addr o.dst_port tail)
proto_code id (udp o) none = none
proto_code id (tcp o) tail = none
proto_code id (quic o) tail = none

abbrev timing_code : Option ℕ → Option ℕ → Option Bytes
timing_code none none = some []
timing_code (some len) (some interval) = some (len ∷ interval ∷ [])
timing_code _ _ = none

abbrev bare_code :
    Option ℕ
    → Option String
    → Option ℕ
    → Option String
    → Option ℕ
    → Option ℕ
    → Option ℕ
    → Option Bytes
bare_code none none none none none len interval = timing_code len interval
bare_code _ _ _ _ _ len interval = none

abbrev message_code : MessageType → Option Bytes
message_code (handshake id) = some (id ∷ [])
message_code (error e) = none
message_code (new_test id cfg) =
    let c = cfg.common_opts in
    proto_code id cfg.proto (bare_code c.count c.iface c.duration c.file c.preload c.len c.interval)

abbrev pub bare : CommonOpts
bare = record {
  len = none;
  interval = none;
  count = none;
  iface = none;
  duration = none;
  file = none;
  preload = none;
}

abbrev common_of : Bytes → CommonOpts
common_of (len ∷ interval ∷ []) = record bare { len = some len; interval = some interval }
common_of _ = bare

abbrev udp_to : IpAddr → ℕ → Bytes → Config
udp_to a port tail = record {
  common_opts = common_of tail;
  proto = udp (record { dst_addr = a; dst_port = port });
}

abbrev message_of : Bytes → Option MessageType
message_of (id ∷ []) = some (handshake id)
message_of (id ∷ port ∷ zero ∷ a ∷ tail) = some (new_test id (udp_to (v4 a) port tail))
message_of (id ∷ port ∷ suc k ∷ a ∷ tail) = some (new_test id (udp_to (v6 a) port tail))
message_of _ = none

abbrev pub short_code : Codec
short_code = record { serialize = message_code; deserialize = message_of }

options :
    Option ℕ
    → Option String
    → Option ℕ
    → Option String
    → Option ℕ
    → Option ℕ
    → Option ℕ
    → CommonOpts
options count iface duration file preload len interval = record {
  len = len;
  interval = interval;
  count = count;
  iface = iface;
  duration = duration;
  file = file;
  preload = preload;
}

some_inj : {x y : Bytes} → some x ≡ some y → x ≡ y
some_inj e = cc

timing_code-some :
    (l i : Option ℕ) (tail : Bytes)
    → timing_code l i ≡ some tail
    → options none none none none none l i ≡ common_of tail
unfolding options
timing_code-some none none tail e =
    subst (λ t. options none none none none none none none ≡ common_of t) (some_inj e) refl
timing_code-some (some l) (some i) tail e =
    subst (λ t. options none none none none none (some l) (some i) ≡ common_of t) (some_inj e) refl
timing_code-some none (some i) tail e = absurd (ground arith)
timing_code-some (some l) none tail e = absurd (ground arith)

bare_code-some :
    (c : Option ℕ) (f : Option String) (d : Option ℕ) (o : Option String) (p l i : Option ℕ)
    (tail : Bytes)
    → bare_code c f d o p l i ≡ some tail
    → options c f d o p l i ≡ common_of tail
bare_code-some none none none none none l i tail e = timing_code-some l i tail e
bare_code-some (some x) f d o p l i tail e = absurd (ground arith)
bare_code-some none (some x) d o p l i tail e = absurd (ground arith)
bare_code-some none none (some x) o p l i tail e = absurd (ground arith)
bare_code-some none none none (some x) p l i tail e = absurd (ground arith)
bare_code-some none none none none (some x) l i tail e = absurd (ground arith)

message_of-udp :
    (id port : ℕ) (a : IpAddr) (tail : Bytes)
    → message_of (udp_code id a port tail) ≡ some (new_test id (udp_to a port tail))
message_of-udp id port (v4 a) tail = refl
message_of-udp id port (v6 a) tail = refl

message_of-proto :
    (id : ℕ) (p : ProtocolType) (tail : Option Bytes) (c : CommonOpts) (bytes : Bytes)
    → ((t : Bytes) → tail ≡ some t → c ≡ common_of t)
    → proto_code id p tail ≡ some bytes
    → message_of bytes ≡ some (new_test id (record { common_opts = c; proto = p }))
message_of-proto id (tcp o) tail c bytes h e = absurd (ground arith)
message_of-proto id (quic o) tail c bytes h e = absurd (ground arith)
message_of-proto id (udp o) none c bytes h e = absurd (ground arith)
message_of-proto id (udp o) (some tail) c bytes h e =
    subst (λ t. message_of t ≡ some (new_test id (record { common_opts = c; proto = udp o })))
      (some_inj e)
      (message_of-udp id o.dst_port o.dst_addr tail
        ∙ ap (λ k. some (new_test id (record { common_opts = k; proto = udp o })))
            (sym (h tail refl)))

short_code-reads_back :
    (m : MessageType) (bytes : Bytes) → message_code m ≡ some bytes → message_of bytes ≡ some m
unfolding options
short_code-reads_back (handshake id) bytes e =
    subst (λ t. message_of t ≡ some (handshake id)) (some_inj e) refl
short_code-reads_back (error x) bytes e = absurd (ground arith)
short_code-reads_back (new_test id cfg) bytes e =
    let c = cfg.common_opts in
    message_of-proto id cfg.proto
      (bare_code c.count c.iface c.duration c.file c.preload c.len c.interval) c bytes
      (λ tail code.
        bare_code-some c.count c.iface c.duration c.file c.preload c.len c.interval tail code)
      e

pub short_code-IsCodec : IsCodec short_code
short_code-IsCodec = record { reads_back = short_code-reads_back }

-- A system that accepts every call.
abbrev pub accepting : Answer
accepting t c = none

-- A test over UDP of the port 7007 of an address.
abbrev pub target : UdpOpts
target = record { dst_addr = v4 9; dst_port = 7007 }
