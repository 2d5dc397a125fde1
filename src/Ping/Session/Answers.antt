-- ===== src/Ping/Session/Answers.antt =====
-- The packets that come to an ICMP client, over a network that does whatever it does.
use mathlib.Core.List.{map-id}
use niceperf.Prelude.{
  true, ℕ, suc, ◌+◌, ◌^◌, ◌≤◌, ◌<◌, ◌≡◌, refl, sym, ap, ◌∙◌, some, List, [], ◌∷◌, ◌++◌, Bytes,
  arith, All, All-imp, All-map, All-append, get_elem?, length, map, map-append, map-map,
}
use niceperf.Prelude.Network.{deliver, deliver-map, on_first}
use niceperf.Common.Statistics.{Float}
use niceperf.Ping.Task.{gave}
use niceperf.Ping.Echo.Send.{Fits}
use niceperf.Ping.Icmp as Icmp
use niceperf.Ping.Icmp.{Etherparse, Round}
use niceperf.Ping.Icmp.Send.{packet, packets}
use niceperf.Ping.Session.{IcmpNetwork}
use niceperf.Ping.Session.OverIcmp.{
  Packet, answer, stray, IsHost, IsStray, bytes_of, Readable, event,
}

-- The answers to the requests, counted from `k`.
abbrev answers : ℕ → List (ℕ × ℕ) → List Packet
answers k [] = []
answers k ((time, n) ∷ ts) = answer time k ∷ answers (k + 1) ts

-- All packets that there are for the client.
abbrev pub pool : IcmpNetwork → List (ℕ × ℕ) → List Packet
pool w ts = answers 0 ts ++ map stray w.strays

-- No answer is read before its request was sent.
abbrev pub Causal : List (Packet × ℕ) → Type 0
Causal [] = Unit {0}
Causal ((answer time k, now) ∷ qs) = (time ≤ now) × Causal qs
Causal ((stray bytes, now) ∷ qs) = Causal qs

module _ {F : Type 0} (f : Float F) (e : Etherparse) (identifier : ℕ) where
  -- The packet is the answer to a round of `ts`, counted from `k₀`, or a stray one.
  abbrev pub IsOf : List (ℕ × ℕ) → ℕ → Packet → Type 0
  IsOf ts k₀ (answer time k) =
      (time < 2 ^ 128)
      × ((i : ℕ) × (n : ℕ) × (k ≡ k₀ + i) × (i < length ts) × (get_elem? ts i ≡ some (time, n)))
  IsOf ts k₀ (stray bytes) = IsStray f e identifier bytes

  IsOf-later :
      (t : ℕ × ℕ) (ts : List (ℕ × ℕ)) (k₀ : ℕ) (q : Packet)
      → IsOf ts (k₀ + 1) q
      → IsOf (t ∷ ts) k₀ q
  IsOf-later t ts k₀ (answer time k) (early, (i, n, number, few, at)) =
      (early, (suc i, n, omega (arith, number), omega (arith, few), at))
  IsOf-later t ts k₀ (stray bytes) h = h

  answers-IsOf : (k : ℕ) (ts : List (ℕ × ℕ)) → Fits ts → All (IsOf ts k) (answers k ts)
  answers-IsOf k [] fits = tt
  answers-IsOf k ((time, n) ∷ ts) (fit, fits) = (
    (fit, (0, n, omega arith, omega arith, refl)),
    All-imp (IsOf ts (k + 1)) (IsOf ((time, n) ∷ ts) k) (answers (k + 1) ts)
        (IsOf-later (time, n) ts k) (answers-IsOf (k + 1) ts fits),
  )

  pub pool-IsOf :
      (w : IcmpNetwork) (ts : List (ℕ × ℕ))
      → Fits ts
      → All (IsStray f e identifier) w.strays
      → All (IsOf ts 0) (pool w ts)
  pool-IsOf w ts fits strays =
      All-append (IsOf ts 0) (answers 0 ts) (map stray w.strays) (answers-IsOf 0 ts fits)
        (All-map (IsOf ts 0) stray w.strays strays)

  module _ (host : Bytes → Bytes) (h : IsHost f e identifier host) (rest : Bytes) where
    host-answers :
        (k : ℕ) (ts : List (ℕ × ℕ))
        → map host (packets e identifier rest k ts)
          ≡ map (bytes_of f e identifier host h rest) (answers k ts)
    host-answers k [] = refl
    host-answers k ((time, n) ∷ ts) =
        ap (λ l. host (packet e identifier rest time k) ∷ l) (host-answers (k + 1) ts)

    pub pool-Readable :
        (ts : List (ℕ × ℕ)) (qs : List (Packet × ℕ))
        → length ts < 2 ^ 64
        → All (λ a. IsOf ts 0 a.0) qs
        → Causal qs
        → All (Readable f e identifier host h rest) qs
    pool-Readable ts [] few sent causal = tt
    pool-Readable ts ((answer time k, now) ∷ qs) few ((early, (i, n, number, lt, at)), sent)
          (le, causal) =
        ((early, omega (arith, number, lt, few), le), pool-Readable ts qs few sent causal)
    pool-Readable ts ((stray bytes, now) ∷ qs) few (s, sent) causal =
        (s, pool-Readable ts qs few sent causal)

    strays-bytes : (bs : List Bytes) → bs ≡ map (bytes_of f e identifier host h rest) (map stray bs)
    strays-bytes bs = sym (map-map (bytes_of f e identifier host h rest) stray bs ∙ map-id bs)

    -- The packets on their way to the client.
    pub pool-bytes :
        (w : IcmpNetwork) (ts : List (ℕ × ℕ))
        → map host (packets e identifier rest 0 ts) ++ w.strays
          ≡ map (bytes_of f e identifier host h rest) (pool w ts)
    pool-bytes w ts =
        ap (λ l. l ++ w.strays) (host-answers 0 ts)
        ∙ ap (λ l. map (bytes_of f e identifier host h rest) (answers 0 ts) ++ l)
            (strays-bytes w.strays)
        ∙ sym (map-append (bytes_of f e identifier host h rest) (answers 0 ts) (map stray w.strays))

    pub pool-events :
        (w : IcmpNetwork) (ts : List (ℕ × ℕ))
        → map
            (λ (a : Bytes × ℕ). Icmp.arrived a.0 (gave a.1) true)
            (deliver (map (bytes_of f e identifier host h rest) (pool w ts)) w.back)
          ≡ map (event f e identifier host h rest) (deliver (pool w ts) w.back)
    pool-events w ts =
        ap (map (λ (a : Bytes × ℕ). Icmp.arrived a.0 (gave a.1) true))
          (deliver-map (bytes_of f e identifier host h rest) (pool w ts) w.back)
        ∙ map-map (λ (a : Bytes × ℕ). Icmp.arrived a.0 (gave a.1) true)
            (on_first (bytes_of f e identifier host h rest)) (deliver (pool w ts) w.back)
