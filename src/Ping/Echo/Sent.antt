-- ===== src/Ping/Echo/Sent.antt =====
-- The packets that a send loop sends, before they are encoded.
use niceperf.Prelude.{
  ℕ, suc, ◌+◌, ◌^◌, ◌<◌, ◌≡◌, refl, ap, ◌∙◌, some, List, [], ◌∷◌, ◌++◌, arith, All, All-imp,
  get_elem?, length, map,
}
use niceperf.Ping.Echo.{EchoPacket, Bincode, IsPacket, IsBincode, Round, send_task}
use niceperf.Ping.Echo.Send.{numbered, good, Fits, packets, send_task-Finished}

abbrev pub numbered_all : EchoPacket → ℕ → List (ℕ × ℕ) → List EchoPacket
numbered_all p k [] = []
numbered_all p k ((time, n) ∷ ts) = numbered p time k ∷ numbered_all p (k + 1) ts

-- The packet is that of a round: the one with its number, counted from `k`, at its time.
abbrev pub IsOf : List (ℕ × ℕ) → ℕ → EchoPacket → Type 0
IsOf ts k q = (i : ℕ) × (n : ℕ) × (q.seq ≡ k + i) × (get_elem? ts i ≡ some (q.send_timestamp, n))

IsOf-later :
    (t : ℕ × ℕ) (ts : List (ℕ × ℕ)) (k : ℕ) (q : EchoPacket) → IsOf ts (k + 1) q → IsOf (t ∷ ts) k q
IsOf-later t ts k q (i, n, number, at) = (suc i, n, omega (arith, number), at)

pub numbered_all-IsOf :
    (p : EchoPacket) (k : ℕ) (ts : List (ℕ × ℕ)) → All (IsOf ts k) (numbered_all p k ts)
numbered_all-IsOf p k [] = tt
numbered_all-IsOf p k ((time, n) ∷ ts) = (
  (0, n, omega arith, refl),
  All-imp (IsOf ts (k + 1)) (IsOf ((time, n) ∷ ts) k) (numbered_all p (k + 1) ts)
      (IsOf-later (time, n) ts k) (numbered_all-IsOf p (k + 1) ts),
)

pub numbered_all-IsPacket :
    (p : EchoPacket) (k : ℕ) (ts : List (ℕ × ℕ))
    → IsPacket p
    → Fits ts
    → k + length ts < 2 ^ 64
    → All IsPacket (numbered_all p k ts)
numbered_all-IsPacket p k [] fits times few = tt
numbered_all-IsPacket p k ((time, n) ∷ ts) fits (here, times) few = (
  record {
    identifier_u16 = fits.identifier_u16;
    send_u128 = here;
    recv_u128 = fits.recv_u128;
    seq_u128 = omega arith;
  },
  numbered_all-IsPacket p (k + 1) ts fits times (omega arith),
)

module _ (b : Bincode) (h : IsBincode b) where
  packets-numbered_all :
      (p : EchoPacket) (k : ℕ) (ts : List (ℕ × ℕ))
      → packets b h p k ts ≡ map h.bytes (numbered_all p k ts)
  packets-numbered_all p k [] = refl
  packets-numbered_all p k ((time, n) ∷ ts) =
      ap (λ l. h.bytes (numbered p time k) ∷ l) (packets-numbered_all p (k + 1) ts)

  -- What is sent, from the start.
  pub send_task-sent :
      (num_ping : ℕ) (p : EchoPacket) (ts : List (ℕ × ℕ)) (more : List Round)
      → IsPacket p
      → Fits ts
      → length ts ≡ num_ping
      → num_ping < 2 ^ 64
      → (send_task b
          (some num_ping)
          (record { counter = 0; payload = p; sent = [] })
          (map good ts ++ more)).1.sent
        ≡ map h.bytes (numbered_all p 0 ts)
  send_task-sent num_ping p ts more fits times total few =
      (send_task-Finished b h num_ping (record { counter = 0; payload = p; sent = [] }) ts more fits
        times (omega (arith, total)) few).in_order
      ∙ packets-numbered_all p 0 ts
