-- ===== src/Ping/Icmp/Prepare.antt =====
-- The checks of the ICMP client's `run`, and what they leave to the send task.
use mathlib.Core.Path.{subst}
use niceperf.Prelude.{
  ℕ, zero, suc, ◌-◌, ◌^◌, ◌≤◌, ◌<◌, ◌≡◌, ◌≢◌, refl, sym, ap, ◌∙◌, Bool, false, Option, none, some,
  List, [], ◌∷◌, ◌++◌, Bytes, arith, length, map, ltb, le→ltb, lt→ltb, length-replicate, replicate,
  if◌then◌else◌, drop, length-append, length-drop,
}
use niceperf.Prelude.Outcome.{ok, err, panic}
use niceperf.Prelude.Words.{Profile, debug, release, sub_word, to_be_bytes, length-to_be_bytes}
use niceperf.Common.Os.{v4}
use niceperf.Ping.Task.{payload_too_small, gave, Sys, ended, reached, copy_into}
use niceperf.Ping.Icmp.{
  IcmpClient, Prepared, prepare, Etherparse, Round, SendState, stamp, send_body, send_task,
  after_body,
}
use niceperf.Ping.Icmp.Send.{good, Finished, send_task-Finished}

-- A client over IPv4 whose options with a default have a value, with an interval that is not 0.
pub record IsReady (c : IcmpClient) (len : ℕ) : Type 0 where
  pub dst : ℕ
  pub src : ℕ
  pub interval : ℕ
  pub preload : ℕ
  pub log : Bool
  pub dst_v4 : c.dst_addr ≡ v4 dst
  pub src_v4 : c.src_addr ≡ v4 src
  pub has_len : c.common.len ≡ some len
  pub has_interval : c.common.interval ≡ some interval
  pub positive : 0 < interval
  pub has_preload : c.common.preload ≡ some preload
  pub has_log : c.common.log ≡ some log

-- What the tasks of such a client start with.
abbrev pub ready : (c : IcmpClient) (len : ℕ) → IsReady c len → Prepared
ready c len r = record {
  dst_addr = r.dst;
  src_addr = r.src;
  payload = replicate (len - 8) 0;
  interval = r.interval;
  num_ping = c.common.count;
  identifier = c.identifier;
  has_logger = c.has_logger;
  log = r.log;
}

abbrev pub taken : IcmpClient → IcmpClient
taken c = record c { common = record c.common { count = none; log = none }; has_logger = false }

-- The length decides: below 8 the client panics, below 24 it refuses the payload as too small, and
-- from there on the tasks start with a payload of eight bytes less.
pub prepare-ready :
    (p : Profile) (c : IcmpClient) (len : ℕ) (r : IsReady c len)
    → len < 2 ^ 63
    → prepare p c ≡ (
        if ltb len 8
        then panic
        else if ltb len 24
        then err payload_too_small
        else ok (ready c len r, taken c))
unfolding prepare sub_word
prepare-ready debug c len r h =
    rw
      (
        r.dst_v4,
        r.src_v4,
        r.has_len,
        r.has_interval,
        r.has_preload,
        lt→ltb 0 r.interval r.positive,
        r.has_log,
      )
      (ground (arith, length-replicate {A = ℕ} (len - 8) 0))
prepare-ready release c len r h =
    rw
      (
        r.dst_v4,
        r.src_v4,
        r.has_len,
        r.has_interval,
        r.has_preload,
        lt→ltb 0 r.interval r.positive,
        r.has_log,
      )
      (ground (arith, length-replicate {A = ℕ} (len - 8) 0))

-- The send task's state when it starts.
abbrev pub start : Prepared → SendState
start r = record { counter = 0; payload = r.payload; sent = [] }

stamp_short : (buf : Bytes) (time count : ℕ) → length buf < 32 → stamp buf time count ≡ panic
unfolding stamp copy_into
stamp_short buf time count h = ground (
  arith,
  length-to_be_bytes 16 time,
  length-to_be_bytes 16 count,
  length-append (to_be_bytes 16 time) (drop 16 buf),
  length-drop 16 buf,
)

prepare_passes :
    (p : Profile) (c : IcmpClient) (len : ℕ) (r : IsReady c len)
    → 24 ≤ len
    → len < 2 ^ 63
    → prepare p c ≡ ok (ready c len r, taken c)
prepare_passes p c len r lo hi =
    prepare-ready p c len r hi ∙ rw (le→ltb len 8 (omega arith), le→ltb len 24 lo)

reached_zero : (count : Option ℕ) → count ≢ some 0 → reached count 0 ≡ false
reached_zero none h = refl
reached_zero (some zero) h = absurd (h refl)
reached_zero (some (suc n)) h = ground arith

module _ (e : Etherparse) where
  send_task_panics :
      (count : Option ℕ) (identifier : ℕ) (s : SendState) (r : Round) (rs : List Round)
      → reached count s.counter ≡ false
      → send_body e identifier s r ≡ panic
      → (send_task e count identifier s (r ∷ rs)).0 ≡ ended panic
  unfolding send_task
  send_task_panics count identifier s r rs h k =
      rw h (ap (λ o. (after_body e o s (λ t. send_task e count identifier t rs)).0) k)

  send_body_short :
      (identifier : ℕ) (s : SendState) (time : ℕ) (written : Sys)
      → length s.payload < 32
      → send_body e identifier s (record { clock = gave time; send = written }) ≡ panic
  unfolding send_body
  send_body_short identifier s time written h = rw (stamp_short s.payload time s.counter h)

  -- With a length of 24 to 39 the client passes its checks, and its send task panics in the first round
  -- in which the clock answers: the payload has no room for the count.
  pub send_task_short :
      (p : Profile) (c : IcmpClient) (len : ℕ) (r : IsReady c len) (time : ℕ) (written : Sys)
      (rs : List Round)
      → 24 ≤ len
      → len < 40
      → c.common.count ≢ some 0
      → (prepare p c ≡ ok (ready c len r, taken c))
        × ((send_task e c.common.count c.identifier
              (start (ready c len r))
              (record { clock = gave time; send = written } ∷ rs)).0
            ≡ ended panic)
  send_task_short p c len r time written rs lo hi some_ping = (
    prepare_passes p c len r lo (omega arith),
    send_task_panics c.common.count c.identifier (start (ready c len r)) _ rs
        (reached_zero c.common.count some_ping)
        (send_body_short c.identifier (start (ready c len r)) time written
          (omega (arith, length-replicate {A = ℕ} (len - 8) 0))),
  )

  send_task_unsent :
      (count : Option ℕ) (identifier : ℕ) (s : SendState) (r : Round) (rs : List Round)
      → reached count s.counter ≡ false
      → send_body e identifier s r ≡ panic
      → (send_task e count identifier s (r ∷ rs)).1 ≡ s
  unfolding send_task
  send_task_unsent count identifier s r rs h k =
      rw h (ap (λ o. (after_body e o s (λ t. send_task e count identifier t rs)).1) k)

  -- Nor does it send a packet.
  pub send_task_short_sent :
      (c : IcmpClient) (len : ℕ) (r : IsReady c len) (time : ℕ) (written : Sys) (rs : List Round)
      → len < 40
      → c.common.count ≢ some 0
      → (send_task e c.common.count c.identifier
          (start (ready c len r))
          (record { clock = gave time; send = written } ∷ rs)).1.sent
        ≡ []
  send_task_short_sent c len r time written rs hi some_ping =
      ap (λ (s : SendState). s.sent)
        (send_task_unsent c.common.count c.identifier (start (ready c len r)) _ rs
          (reached_zero c.common.count some_ping)
          (send_body_short c.identifier (start (ready c len r)) time written
            (omega (arith, length-replicate {A = ℕ} (len - 8) 0))))

  -- With a length of 40 or more, an interval that is not 0, IPv4 addresses, a preload, a log option and a
  -- count of pings, the client passes its checks, and its send task,
  -- given as many good rounds, ends without an error with one packet a round, counted from 0.
  pub run-Finished :
      (p : Profile) (c : IcmpClient) (len num_ping : ℕ) (r : IsReady c len) (ts : List (ℕ × ℕ))
      (more : List Round)
      → 40 ≤ len
      → len < 2 ^ 63
      → c.common.count ≡ some num_ping
      → length ts ≡ num_ping
      → num_ping < 2 ^ 64
      → (prepare p c ≡ ok (ready c len r, taken c))
        × Finished e c.identifier num_ping (start (ready c len r)) ts (
            send_task e c.common.count c.identifier
              (start (ready c len r))
              (map (good e) ts ++ more))
  run-Finished p c len num_ping r ts more lo hi count total fits = (
    prepare_passes p c len r (omega arith) hi,
    subst
        (λ o.
          Finished e c.identifier num_ping (start (ready c len r)) ts
            (send_task e o c.identifier (start (ready c len r)) (map (good e) ts ++ more)))
        (sym count)
        (send_task-Finished e c.identifier num_ping (start (ready c len r)) ts more
          (omega (arith, length-replicate {A = ℕ} (len - 8) 0)) (omega arith) fits),
  )
