-- ===== src/Common/Os.antt =====
-- The socket calls that common/src/lib.rs makes through `socket2` and `nix`, and what runs them.
-- The operating system is a parameter: `answer` gives the error number with which it refuses a call,
-- or `none`, and may look at all the calls made before. A trace lists the calls in order.
pub mod Plan
use Prim.Native.String.{String}
use niceperf.Prelude.{
  ℕ, ◌≡◌, refl, sym, ap, ◌∙◌, Option, none, some, List, [], ◌∷◌, ◌++◌, append-nil, append_assoc,
  Bool, arith, ◌==◌, if◌then◌else◌, Bytes,
}
use niceperf.Prelude.Outcome.{Outcome, ok, err, panic}

-- `std::net::IpAddr`; an address is a number.
pub data IpAddr : Type 0 where
  v4 : ℕ → IpAddr
  v6 : ℕ → IpAddr

pub data Domain : Type 0 where
  ipv4 ipv6 : Domain

pub data SockType : Type 0 where
  raw dgram stream : SockType

pub data Protocol : Type 0 where
  icmpv4 icmpv6 udp tcp : Protocol

pub data Call : Type 0 where
  socket : Domain → SockType → Option Protocol → Call
  set_nonblocking : Bool → Call
  bind_device : String → Call
  bind : IpAddr → ℕ → Call
  connect : IpAddr → ℕ → Call
  set_reuse_address : Bool → Call
  listen : ℕ → Call
  set_mss : ℕ → Call
  set_nodelay : Bool → Call
  set_quickack : Bool → Call
  set_congestion : String → Call

-- The causes that the callers can see: `io` is the `std::io::Error` of a call, the others are built
-- by this crate.
pub data Error : Type 0 where
  io : ℕ → Error
  device_missing : String → ℕ → Error
  device_unexpected : ℕ → Error
  congestion : ℕ → Error
  no_socket_type : ℕ → Error
  no_tcp_info : Error
  wrong_type : Error
  send_failed : Error
  no_interface : Error
  no_address : Error

abbrev pub Trace : Type 0
Trace = List Call

abbrev pub Answer : Type 0
Answer = Trace → Call → Option ℕ

abbrev pub Os {ℓ} : Type ℓ → Type ℓ
Os A = Answer → Trace → Outcome Error A × Trace

module _ {ℓ} {A : Type ℓ} where
  abbrev pub pure : A → Os A
  pure a answer t = (ok a, t)

  abbrev pub raise : Error → Os A
  raise e answer t = (err e, t)

module _ {ℓ κ} {A : Type ℓ} {B : Type κ} where
  abbrev pub continue : Outcome Error A → (A → Os B) → Answer → Trace → Outcome Error B × Trace
  continue (ok a) f answer t = f a answer t
  continue (err e) f answer t = (err e, t)
  continue panic f answer t = (panic, t)

  infixl 5 ◌>>=◌
  abbrev pub ◌>>=◌ : Os A → (A → Os B) → Os B
  ◌>>=◌ m f answer t = continue (m answer t).0 f answer (m answer t).1

module _ {κ} {B : Type κ} where
  infixl 5 ◌>>◌
  abbrev pub ◌>>◌ : Os (Unit {0}) → Os B → Os B
  m >> k = m >>= λ _. k

-- One call; `fail` makes the error of a refusal.
abbrev pub perform : (ℕ → Error) → Call → Os (Unit {0})
perform fail c answer t = (elim (answer t c) [ none ↦ ok tt | some e ↦ err (fail e) ], t ++ c ∷ [])

-- A call under `?`.
abbrev pub sys : Call → Os (Unit {0})
sys = perform io

-- `ENODEV` on Linux.
abbrev pub enodev : ℕ
enodev = 19

-- What each call's refusal becomes.
abbrev pub report : Call → ℕ → Error
report (bind_device d) e = if e == enodev then device_missing d e else device_unexpected e
report (set_congestion c) e = congestion e
report c e = io e

-- Calls in order, up to the first that is refused.
unfoldable pub run_plan : List Call → Os (Unit {0})
run_plan [] = pure tt
run_plan (c ∷ cs) = perform (report c) c >> run_plan cs
