-- ===== src/Ping/Icmp/Send.antt =====
-- The packets that the ICMP send task sends.
use niceperf.Prelude.{
  ℕ, ◌+◌, ◌%◌, ◌^◌, ◌≤◌, ◌<◌, ◌≡◌, refl, sym, ap, ◌∙◌, true, false, Option, some, List, [], ◌∷◌,
  ◌++◌, Bytes, arith, length, drop, length-append, length-drop, drop-drop, drop-append,
  drop-append_more, map, le→leb, lt→leb, append_assoc, append-nil,
}
use niceperf.Prelude.Outcome.{ok}
use niceperf.Prelude.Words.{to_be_bytes, length-to_be_bytes}
use niceperf.Ping.Task.{gave, TaskEnd, ended, reached, copy_into-append}
use niceperf.Ping.Icmp.{Etherparse, Round, SendState, stamp, send_body, after_body, send_task}

-- The payload of a packet: the time and the count in sixteen bytes each, then the template's rest.
abbrev pub stamped : Bytes → ℕ → ℕ → Bytes
stamped rest time count = to_be_bytes 16 time ++ (to_be_bytes 16 count ++ rest)

stamp_lem :
    (buf : Bytes) (time count : ℕ)
    → 32 ≤ length buf
    → stamp buf time count ≡ ok (stamped (drop 32 buf) time count)
unfolding stamp
stamp_lem buf time count h =
    rw
      (copy_into-append [] buf (to_be_bytes 16 time) 0 refl
        (omega (arith, length-to_be_bytes 16 time)))
      (copy_into-append (to_be_bytes 16 time) (drop (length (to_be_bytes 16 time)) buf)
          (to_be_bytes 16 count) 16 (length-to_be_bytes 16 time)
          (omega (
            arith,
            length-to_be_bytes 16 time,
            length-to_be_bytes 16 count,
            length-drop (length (to_be_bytes 16 time)) buf,
          ))
        ∙ ap (λ l. ok (to_be_bytes 16 time ++ (to_be_bytes 16 count ++ l)))
            (rw (length-to_be_bytes 16 count, length-to_be_bytes 16 time) (drop-drop 16 16 buf)))

module _ (e : Etherparse) where
  -- The packet with the count `k`: the identifier, the count modulo 2 ^ 16 as sequence number, and the
  -- stamped payload behind a header over it.
  abbrev pub packet : ℕ → Bytes → ℕ → ℕ → Bytes
  packet identifier rest time k =
      e.request_header identifier (k % 2 ^ 16) (stamped rest time k) ++ stamped rest time k

  send_body_lem :
      (identifier : ℕ) (s : SendState) (time n : ℕ)
      → 32 ≤ length s.payload
      → send_body e identifier s (record { clock = gave time; send = gave n })
        ≡ ok (record {
          counter = (s.counter + 1) % 2 ^ 64;
          payload = stamped (drop 32 s.payload) time s.counter;
          sent = s.sent ++ packet identifier (drop 32 s.payload) time s.counter ∷ [];
        })
  unfolding send_body
  send_body_lem identifier s time n h = rw (stamp_lem s.payload time s.counter h)

  -- Rounds in which the clock and the socket answer; each is given by its time and its written length.
  abbrev pub good : ℕ × ℕ → Round
  good (time, n) = record { clock = gave time; send = gave n }

  -- The packets of a series of times, the counts going up from `k`.
  abbrev pub packets : ℕ → Bytes → ℕ → List (ℕ × ℕ) → List Bytes
  packets identifier rest k [] = []
  packets identifier rest k ((time, n) ∷ ts) =
      packet identifier rest time k ∷ packets identifier rest (k + 1) ts

  drop-stamped : (rest : Bytes) (time k : ℕ) → drop 32 (stamped rest time k) ≡ rest
  drop-stamped rest time k =
      drop-append_more 32 16 (to_be_bytes 16 time) (to_be_bytes 16 k ++ rest)
        (omega (arith, length-to_be_bytes 16 time))
      ∙ drop-append 16 (to_be_bytes 16 k) rest (length-to_be_bytes 16 k)

  length-stamped : (rest : Bytes) (time k : ℕ) → 32 ≤ length (stamped rest time k)
  length-stamped rest time k = omega (
    arith,
    length-append (to_be_bytes 16 time) (to_be_bytes 16 k ++ rest),
    length-append (to_be_bytes 16 k) rest,
    length-to_be_bytes 16 time,
    length-to_be_bytes 16 k,
  )

  send_task_stop :
      (num_ping : Option ℕ) (identifier : ℕ) (s : SendState) (rs : List Round)
      → reached num_ping s.counter ≡ true
      → send_task e num_ping identifier s rs ≡ (ended (ok tt), s)
  unfolding send_task
  send_task_stop num_ping identifier s [] h = rw h
  send_task_stop num_ping identifier s (r ∷ rs) h = rw h

  send_task_step :
      (num_ping : Option ℕ) (identifier : ℕ) (s s' : SendState) (r : Round) (rs : List Round)
      → reached num_ping s.counter ≡ false
      → send_body e identifier s r ≡ ok s'
      → send_task e num_ping identifier s (r ∷ rs) ≡ send_task e num_ping identifier s' rs
  unfolding send_task
  send_task_step num_ping identifier s s' r rs h k =
      rw h (ap (λ o. after_body e o s (λ t. send_task e num_ping identifier t rs)) k)

  -- The task has ended without an error and has sent one packet for each of `ts`, the counts going up
  -- from the counter of `s` to `num_ping`.
  pub record Finished (identifier num_ping : ℕ) (s : SendState) (ts : List (ℕ × ℕ))
      (r : TaskEnd × SendState) : Type 0 where
    pub without_error : r.0 ≡ ended (ok tt)
    pub counted : r.1.counter ≡ num_ping
    pub in_order : r.1.sent ≡ s.sent ++ packets identifier (drop 32 s.payload) s.counter ts

  -- With a limit of `num_ping` and as many good rounds as are still to go, the task ends without an
  -- error, whatever rounds would follow, and has sent one packet a round with the counts in order. The
  -- payload must have room for the two stamps.
  pub send_task-Finished :
      (identifier num_ping : ℕ) (s : SendState) (ts : List (ℕ × ℕ)) (more : List Round)
      → 32 ≤ length s.payload
      → s.counter + length ts ≡ num_ping
      → num_ping < 2 ^ 64
      → Finished identifier num_ping s ts
          (send_task e (some num_ping) identifier s (map good ts ++ more))
  send_task-Finished identifier num_ping s [] more h total fits =
      rw
        (send_task_stop (some num_ping) identifier s more (le→leb num_ping s.counter (omega arith)))
        (record { without_error = refl; counted = omega arith; in_order = sym (append-nil s.sent) })
  send_task-Finished identifier num_ping s ((time, n) ∷ ts) more h total fits =
      let s' : SendState = record {
        counter = (s.counter + 1) % 2 ^ 64;
        payload = stamped (drop 32 s.payload) time s.counter;
        sent = s.sent ++ packet identifier (drop 32 s.payload) time s.counter ∷ [];
      } in
      let up : (s.counter + 1) % 2 ^ 64 ≡ s.counter + 1 = omega arith in
      let later =
        send_task-Finished identifier num_ping s' ts more
          (length-stamped (drop 32 s.payload) time s.counter) (omega arith) fits in
      rw
        (send_task_step (some num_ping) identifier s s' (good (time, n)) (map good ts ++ more)
          (lt→leb num_ping s.counter (omega arith)) (send_body_lem identifier s time n h))
        (record {
          without_error = later.without_error;
          counted = later.counted;
          in_order =
              later.in_order
              ∙ rw (drop-stamped (drop 32 s.payload) time s.counter, up, append_assoc);
        })
