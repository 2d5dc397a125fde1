-- ===== src/Ping/Echo/Send.antt =====
-- The packets of the send loop, and the server's answers to them.
use niceperf.Prelude.{
  ℕ, ◌+◌, ◌%◌, ◌^◌, ◌<◌, ◌≡◌, refl, sym, ap, ◌∙◌, true, false, Option, some, List, [], ◌∷◌, ◌++◌,
  Bytes, arith, length, map, le→leb, lt→leb, append_assoc, append-nil,
}
use niceperf.Prelude.Outcome.{ok}
use niceperf.Ping.Task.{gave, TaskEnd, ended, reached}
use niceperf.Ping.Echo.{
  EchoPacket, Bincode, IsPacket, IsBincode, Round, SendState, send_body, after_body, send_task,
  echo,
}

-- The packet with the count `k`, sent at `time`.
abbrev pub numbered : EchoPacket → ℕ → ℕ → EchoPacket
numbered p time k = record p { seq = k; send_timestamp = time }

abbrev pub good : ℕ × ℕ → Round
good (time, n) = record { clock = gave time; send = gave n }

-- The times of the rounds fit a `u128`.
abbrev pub Fits : List (ℕ × ℕ) → Type 0
Fits [] = Unit {0}
Fits ((time, n) ∷ ts) = (time < 2 ^ 128) × Fits ts

module _ (b : Bincode) (h : IsBincode b) where
  -- The packets of a series of times, the counts going up from `k`.
  abbrev pub packets : EchoPacket → ℕ → List (ℕ × ℕ) → List Bytes
  packets p k [] = []
  packets p k ((time, n) ∷ ts) = h.bytes (numbered p time k) ∷ packets p (k + 1) ts

  packets-numbered :
      (p : EchoPacket) (time j k : ℕ) (ts : List (ℕ × ℕ))
      → packets (numbered p time j) k ts ≡ packets p k ts
  packets-numbered p time j k [] = refl
  packets-numbered p time j k ((t, n) ∷ ts) =
      ap (λ l. h.bytes (numbered p t k) ∷ l) (packets-numbered p time j (k + 1) ts)

  send_body_lem :
      (s : SendState) (time n : ℕ)
      → IsPacket (numbered s.payload time s.counter)
      → send_body b s (good (time, n))
        ≡ ok (record {
          counter = (s.counter + 1) % 2 ^ 64;
          payload = numbered s.payload time s.counter;
          sent = s.sent ++ h.bytes (numbered s.payload time s.counter) ∷ [];
        })
  unfolding send_body
  send_body_lem s time n fits = rw (h.encodes (numbered s.payload time s.counter) fits)

  send_task_stop :
      (num_ping : Option ℕ) (s : SendState) (rs : List Round)
      → reached num_ping s.counter ≡ true
      → send_task b num_ping s rs ≡ (ended (ok tt), s)
  unfolding send_task
  send_task_stop num_ping s [] e = rw e
  send_task_stop num_ping s (r ∷ rs) e = rw e

  send_task_step :
      (num_ping : Option ℕ) (s s' : SendState) (r : Round) (rs : List Round)
      → reached num_ping s.counter ≡ false
      → send_body b s r ≡ ok s'
      → send_task b num_ping s (r ∷ rs) ≡ send_task b num_ping s' rs
  unfolding send_task
  send_task_step num_ping s s' r rs e k =
      rw e (ap (λ o. after_body b o s (λ t. send_task b num_ping t rs)) k)

  -- The task has ended without an error and has sent the encoding of one packet for each of `ts`, the
  -- counts going up from the counter of `s` to `num_ping`.
  pub record Finished (num_ping : ℕ) (s : SendState) (ts : List (ℕ × ℕ)) (r : TaskEnd × SendState)
      : Type 0 where
    pub without_error : r.0 ≡ ended (ok tt)
    pub counted : r.1.counter ≡ num_ping
    pub in_order : r.1.sent ≡ s.sent ++ packets s.payload s.counter ts

  -- With a limit of `num_ping` below 2 ^ 64 and as many good rounds as are still to go, whose times fit
  -- their types as the payload does, the task ends without an error, whatever rounds would follow, and has sent one packet a round with the counts in order.
  pub send_task-Finished :
      (num_ping : ℕ) (s : SendState) (ts : List (ℕ × ℕ)) (more : List Round)
      → IsPacket s.payload
      → Fits ts
      → s.counter + length ts ≡ num_ping
      → num_ping < 2 ^ 64
      → Finished num_ping s ts (send_task b (some num_ping) s (map good ts ++ more))
  send_task-Finished num_ping s [] more p times total fits =
      rw (send_task_stop (some num_ping) s more (le→leb num_ping s.counter (omega arith)))
        (record { without_error = refl; counted = omega arith; in_order = sym (append-nil s.sent) })
  send_task-Finished num_ping s ((time, n) ∷ ts) more p (here, times) total fits =
      let s' : SendState = record {
        counter = (s.counter + 1) % 2 ^ 64;
        payload = numbered s.payload time s.counter;
        sent = s.sent ++ h.bytes (numbered s.payload time s.counter) ∷ [];
      } in
      let p' : IsPacket (numbered s.payload time s.counter) = record {
        identifier_u16 = p.identifier_u16;
        send_u128 = here;
        recv_u128 = p.recv_u128;
        seq_u128 = omega arith;
      } in
      let up : (s.counter + 1) % 2 ^ 64 ≡ s.counter + 1 = omega arith in
      let later = send_task-Finished num_ping s' ts more p' times (omega arith) fits in
      rw
        (send_task_step (some num_ping) s s' (good (time, n)) (map good ts ++ more)
          (lt→leb num_ping s.counter (omega arith)) (send_body_lem s time n p'))
        (record {
          without_error = later.without_error;
          counted = later.counted;
          in_order =
              later.in_order
              ∙ rw (up, packets-numbered s.payload time s.counter (s.counter + 1) ts, append_assoc);
        })

  -- The server's answer to a packet is the same packet with its own time.
  pub echo-bytes :
      (p : EchoPacket) (now : ℕ)
      → IsPacket p
      → now < 2 ^ 128
      → echo b (h.bytes p) (gave now) ≡ ok (h.bytes (record p { recv_timestamp = now }))
  unfolding echo
  echo-bytes p now fits time = rw (
    h.decodes p fits,
    h.encodes (record p { recv_timestamp = now })
        (record {
          identifier_u16 = fits.identifier_u16;
          send_u128 = fits.send_u128;
          recv_u128 = time;
          seq_u128 = fits.seq_u128;
        }),
  )
