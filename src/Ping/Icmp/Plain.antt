-- ===== src/Ping/Icmp/Plain.antt =====
-- A concrete `etherparse` at which the ICMP theorems are applied: headers of eight bytes with a zero
-- checksum; and a host that answers.
use niceperf.Prelude.{
  ℕ, ◌+◌, ◌*◌, ◌/◌, ◌%◌, ◌≡◌, refl, sym, ap, ◌∙◌, Option, none, some, [], ◌∷◌, ◌++◌, Bytes, arith,
  ◌==◌, if◌then◌else◌, length, take, drop, take-append, append-nil,
}
use niceperf.Ping.Icmp.{Etherparse, IcmpType, echo_request, echo_reply, other}

abbrev pub type_of : ℕ → ℕ → ℕ → IcmpType
type_of kind id seq =
    if kind == 0 then echo_reply id seq else if kind == 8 then echo_request id seq else other

abbrev pub read_header : Bytes → Option (IcmpType × Bytes)
read_header (kind ∷ code ∷ c₁ ∷ c₂ ∷ i₁ ∷ i₂ ∷ s₁ ∷ s₂ ∷ payload) =
    some (type_of kind (i₁ * 256 + i₂) (s₁ * 256 + s₂), payload)
read_header _ = none

abbrev pub header : ℕ → ℕ → ℕ → Bytes
header kind id seq = kind ∷ 0 ∷ 0 ∷ 0 ∷ (id / 256) ∷ (id % 256) ∷ (seq / 256) ∷ (seq % 256) ∷ []

abbrev pub plain : Etherparse
plain = record { request_header = λ id seq payload. header 8 id seq; from_slice = read_header }

-- An IPv4 header with the time to live 61.
abbrev pub ip_header : Bytes
ip_header = 69 ∷ 0 ∷ 0 ∷ 60 ∷ 0 ∷ 0 ∷ 0 ∷ 0 ∷ 61 ∷ 1 ∷ 0 ∷ 0 ∷ 0 ∷ 0 ∷ 0 ∷ 1 ∷ 0 ∷ 0 ∷ 0 ∷ 2 ∷ []

-- The kind of the message becomes that of a reply.
abbrev as_reply : Bytes → Bytes
as_reply [] = []
as_reply (kind ∷ rest) = 0 ∷ rest

abbrev pub host : Bytes → Bytes
host request = ip_header ++ as_reply request

take_all : (xs : Bytes) → take (length xs) xs ≡ xs
take_all xs = ap (take (length xs)) (sym (append-nil xs)) ∙ take-append (length xs) xs [] refl

halves : (n : ℕ) → n / 256 * 256 + n % 256 ≡ n
halves n = omega arith

pub host-parsed :
    (id seq : ℕ) (payload : Bytes)
    → plain.from_slice (
        drop 20 (
          take
            (length (host (plain.request_header id seq payload ++ payload)))
            (host (plain.request_header id seq payload ++ payload))))
      ≡ some (echo_reply id seq, payload)
host-parsed id seq payload =
    ap (λ bytes. plain.from_slice (drop 20 bytes))
      (take_all (host (plain.request_header id seq payload ++ payload)))
    ∙ ap (λ i. some (echo_reply i (seq / 256 * 256 + seq % 256), payload)) (halves id)
    ∙ ap (λ i. some (echo_reply id i, payload)) (halves seq)
