-- ===== src/Ping/Echo/Plain.antt =====
-- A concrete `bincode` and a concrete `f64` at which the theorems are applied: a packet as the list of
-- its fields, and whole numbers.
use Prim.Native.Nat.{min, max}
use niceperf.Prelude.{ℕ, ◌+◌, ◌-◌, ◌*◌, ◌/◌, refl, Option, none, some, ◌∷◌, Bytes}
use niceperf.Common.Statistics.{Float}
use niceperf.Ping.Echo.{EchoPacket, Bincode, IsBincode}

abbrev pub fields : EchoPacket → Bytes
fields p = p.identifier ∷ p.send_timestamp ∷ p.recv_timestamp ∷ p.seq ∷ p.payload

abbrev pub of_fields : Bytes → Option EchoPacket
of_fields (i ∷ s ∷ r ∷ n ∷ payload) =
    some (record {
      identifier = i;
      send_timestamp = s;
      recv_timestamp = r;
      seq = n;
      payload = payload;
    })
of_fields _ = none

abbrev pub plain : Bincode
plain = record { serialize = λ p. some (fields p); deserialize = of_fields }

abbrev pub plain-IsBincode : IsBincode plain
plain-IsBincode = record { bytes = fields; encodes = λ p h. refl; decodes = λ p h. refl }

abbrev pub whole : Float ℕ
whole = record {
  nan = 0;
  zero = 0;
  of_ℕ = λ n. n;
  add = λ a b. a + b;
  sub = λ a b. a - b;
  mul = λ a b. a * b;
  div = λ a b. a / b;
  sqrt = λ a. a;
  min = λ a b. min a b;
  max = λ a b. max a b;
}
