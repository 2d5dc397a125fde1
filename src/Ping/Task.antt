-- ===== src/Ping/Task.antt =====
-- What the tasks of the ping clients share: their errors, how a task ends, the stop test of the send
-- loops, and the copies into the payload.
use niceperf.Prelude.{
  ℕ, zero, suc, ◌+◌, ◌≤◌, ◌≡◌, Bool, false, Option, none, some, [], ◌∷◌, ◌++◌, Bytes, arith, leb,
  ltb, replicate, ◌^◌, length, take, drop, length-append, take-append, drop-append_more, le→leb,
  if◌then◌else◌,
}
use niceperf.Prelude.Outcome.{Outcome, ok, err, panic, require, ◌>>◌}
use niceperf.Common.Os.{IpAddr, v4, v6}
use niceperf.Common.Os

pub data Error : Type 0 where
  os : Os.Error → Error
  ipv6_unsupported : Error
  payload_too_small : Error
  clock_failed : ℕ → Error
  send_failed : ℕ → Error
  receive_failed : ℕ → Error
  bad_header : Error
  bad_packet : Error
  encode_failed : Error
  log_failed : Error
  client_timeout : Error
  client_error : Error
  icmp_server : Error
  join_failed : Error
  log_closed : Error

-- What a system call that a task makes comes back with.
pub data Sys : Type 0 where
  refused : ℕ → Sys
  gave : ℕ → Sys

abbrev pub call : (ℕ → Error) → Sys → Outcome Error ℕ
call fail (refused e) = err (fail e)
call fail (gave n) = ok n

-- A task that still waits for an event, or the result that it ended with.
pub data TaskEnd : Type 0 where
  waiting : TaskEnd
  ended : Outcome Error (Unit {0}) → TaskEnd

-- `if let Some(num_ping) = num_ping { if send_seq >= num_ping { break } }`
abbrev pub reached : Option ℕ → ℕ → Bool
reached none sent = false
reached (some num_ping) sent = leb num_ping sent

-- `match addr { IpAddr::V4(addr) => addr, IpAddr::V6(_) => return Err(…) }`
abbrev pub ipv4_only : IpAddr → Outcome Error ℕ
ipv4_only (v4 a) = ok a
ipv4_only (v6 a) = err ipv6_unsupported

-- `vec![0u8; n]` panics where `n` passes `isize::MAX`.
abbrev pub zeros : ℕ → Outcome Error Bytes
zeros n = do require (ltb n (2 ^ 63)); ok (replicate n 0)

-- `buf[from..from + src.len()].copy_from_slice(&src)`: a range past the end panics.
unfoldable pub copy_into : Bytes → ℕ → Bytes → Outcome Error Bytes
copy_into buf from src = do
  require (leb (from + length src) (length buf))
  ok (take from buf ++ (src ++ drop (from + length src) buf))

-- `&buf[from..to]`
unfoldable pub slice : Bytes → ℕ → ℕ → Outcome Error Bytes
slice buf from to = do
  require (leb from to)
  require (leb to (length buf))
  ok (drop from (take to buf))

-- `buf[i]`
unfoldable pub byte_at : Bytes → ℕ → Outcome Error ℕ
byte_at [] i = panic
byte_at (b ∷ bs) zero = ok b
byte_at (b ∷ bs) (suc i) = byte_at bs i

-- `tokio::time::interval`, which panics on a period of 0.
abbrev pub timer : ℕ → Outcome Error (Unit {0})
timer period = require (ltb 0 period)

-- What a task does once its timer is made.
abbrev pub paced : {S : Type 0} → ℕ → S → TaskEnd × S → TaskEnd × S
paced period s run = if ltb 0 period then run else (ended panic, s)

-- A copy behind a part of the buffer that it does not reach.
pub copy_into-append :
    (a rest src : Bytes) (n : ℕ)
    → length a ≡ n
    → length src ≤ length rest
    → copy_into (a ++ rest) n src ≡ ok (a ++ (src ++ drop (length src) rest))
unfolding copy_into
copy_into-append a rest src n e h = rw (
  le→leb (n + length src) (length (a ++ rest)) (omega (arith, length-append a rest)),
  take-append n a rest e,
  drop-append_more (n + length src) (length src) a rest (omega arith),
)
