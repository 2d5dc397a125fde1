-- ===== src/Common/Sockets/Raw.antt =====
-- Sockets from the operating system's own (`from_raw_socket`, `get_stats`), and the calls of
-- `AsyncICMPSocket` (common/src/lib.rs). What a system call answers is an argument.
use niceperf.Prelude.{
  ℕ, zero, suc, ◌≡◌, ◌↔◌, refl, Option, none, some, List, [], ◌∷◌, ◌++◌, ◌==◌, if◌then◌else◌,
  replicate, arith,
}
use niceperf.Prelude.Outcome.{Outcome, ok, err}
use niceperf.Common.Os.{Error, io, no_socket_type, no_tcp_info, wrong_type, send_failed}

-- What `getsockopt` answers: -1 with an error number, or a value.
pub data SockOpt {ℓ} (A : Type ℓ) : Type ℓ where
  refused : ℕ → SockOpt A
  value : A → SockOpt A

-- `SOCK_STREAM` and `SOCK_RAW` of libc on Linux.
abbrev pub sock_stream : ℕ
sock_stream = 1

abbrev pub sock_raw : ℕ
sock_raw = 3

module _ {ℓ} {S : Type ℓ} where
  pub icmp_from_raw_socket : S → SockOpt ℕ → Outcome Error S
  icmp_from_raw_socket s (refused e) = err (no_socket_type e)
  icmp_from_raw_socket s (value kind) = if kind == sock_raw then ok s else err wrong_type

  pub tcp_from_raw_socket : S → SockOpt ℕ → Outcome Error S
  tcp_from_raw_socket s (refused e) = err (no_socket_type e)
  tcp_from_raw_socket s (value kind) = if kind == sock_stream then ok s else err wrong_type

  -- `TCPSocket::get_stats`
  unfoldable pub get_stats : SockOpt S → Outcome Error S
  get_stats (refused e) = err no_tcp_info
  get_stats (value info) = ok info

module _ {S : Type 0} where
  icmp_ok→kind : (s : S) (o : SockOpt ℕ) → icmp_from_raw_socket s o ≡ ok s → o ≡ value sock_raw
  unfolding icmp_from_raw_socket
  icmp_ok→kind s (refused e) h = ground arith
  icmp_ok→kind s (value k) h = ground arith

  kind→icmp_ok : (s : S) (o : SockOpt ℕ) → o ≡ value sock_raw → icmp_from_raw_socket s o ≡ ok s
  unfolding icmp_from_raw_socket
  kind→icmp_ok s o h = rw h

  tcp_ok→kind : (s : S) (o : SockOpt ℕ) → tcp_from_raw_socket s o ≡ ok s → o ≡ value sock_stream
  unfolding tcp_from_raw_socket
  tcp_ok→kind s (refused e) h = ground arith
  tcp_ok→kind s (value k) h = ground arith

  kind→tcp_ok : (s : S) (o : SockOpt ℕ) → o ≡ value sock_stream → tcp_from_raw_socket s o ≡ ok s
  unfolding tcp_from_raw_socket
  kind→tcp_ok s o h = rw h

-- A socket of the system becomes an ICMP socket exactly when the system says that it is raw, and a
-- TCP socket exactly when the system says that it is a stream.
pub from_raw_socket_iff :
    {S : Type 0} (s : S) (o : SockOpt ℕ)
    → ((icmp_from_raw_socket s o ≡ ok s) ↔ (o ≡ value sock_raw))
      × ((tcp_from_raw_socket s o ≡ ok s) ↔ (o ≡ value sock_stream))
from_raw_socket_iff s o = ((icmp_ok→kind s o, kind→icmp_ok s o), (tcp_ok→kind s o, kind→tcp_ok s o))

-- What `guard.try_io(…)` gives once the socket is ready.
pub data TryIo : Type 0 where
  would_block : TryIo
  done : ℕ → TryIo
  failed : ℕ → TryIo

-- `send` and `send_to` try once.
unfoldable pub async_send : TryIo → Outcome Error ℕ
async_send would_block = err send_failed
async_send (done n) = ok n
async_send (failed e) = err (io e)

-- The loop of `read`, over what each attempt gives: `none` while all have blocked.
pub async_read : List TryIo → Option (Outcome Error ℕ × List TryIo)
async_read [] = none
async_read (would_block ∷ later) = async_read later
async_read (done n ∷ later) = some (ok n, later)
async_read (failed e ∷ later) = some (err (io e), later)

-- However often a read blocks, it waits on, and ends with the first attempt that does not block.
pub async_read-replicate :
    (k n e : ℕ) (later : List TryIo)
    → (async_read (replicate k would_block ++ done n ∷ later) ≡ some (ok n, later))
      × (async_read (replicate k would_block ++ failed e ∷ later) ≡ some (err (io e), later))
      × (async_read (replicate k would_block) ≡ none)
unfolding async_read
async_read-replicate zero n e later = (refl, refl, refl)
async_read-replicate (suc k) n e later = async_read-replicate k n e later
