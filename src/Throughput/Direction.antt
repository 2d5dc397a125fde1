-- ===== src/Throughput/Direction.antt =====
-- `TestDirection` and its `FromStr` (throughput/src/args.rs), and the two subcommands of
-- throughput/src/main.rs.
mod Runs
use Prim.Native.String.{String}
use text.Mathlib.Text.{◌==◌}
use text.Mathlib.TextEquality.{eq_iff}
use niceperf.Prelude.{
  ◌≡◌, ◌↔◌, refl, ◌⊎◌, inl, inr, Bool-cases, ◌||◌, List, [], ◌∷◌, arith, if◌then◌else◌,
}
use niceperf.Prelude.Outcome.{Outcome, ok, err, panic}

pub data TestDirection : Type 0 where
  server client bidirectional : TestDirection

pub data DirectionError : Type 0 where
  invalid_test_direction : DirectionError

pub from_str : String → Outcome DirectionError TestDirection
from_str s =
    if s == "server"
    then ok server
    else if s == "client"
    then ok client
    else if (s == "bidi") || (s == "bidirectional")
    then ok bidirectional
    else err invalid_test_direction

-- The words of each direction, the documented one first.
pub data Spells : String → TestDirection → Type 0 where
  is_server : {s : String} → s ≡ "server" → Spells s server
  is_client : {s : String} → s ≡ "client" → Spells s client
  is_bidi : {s : String} → s ≡ "bidi" → Spells s bidirectional
  is_bidirectional : {s : String} → s ≡ "bidirectional" → Spells s bidirectional

from_str→Spells : (s : String) (d : TestDirection) → from_str s ≡ ok d → Spells s d
unfolding from_str
from_str→Spells s server e = is_server (ground (arith, eq_iff s "server"))
from_str→Spells s client e = is_client (ground (arith, eq_iff s "client"))
from_str→Spells s bidirectional e = elim (Bool-cases (s == "bidi")) [
  | inl t ↦ is_bidi ((eq_iff s "bidi").0 t)
  | inr f ↦ is_bidirectional (ground (arith, eq_iff s "bidirectional"))
]

Spells→from_str : {s : String} {d : TestDirection} → Spells s d → from_str s ≡ ok d
unfolding from_str
Spells→from_str (is_server e) = rw e
Spells→from_str (is_client e) = rw e
Spells→from_str (is_bidi e) = rw e
Spells→from_str (is_bidirectional e) = rw e

-- A text is read as a direction exactly when it is a word of that direction.
pub from_str-Spells : (s : String) (d : TestDirection) → (from_str s ≡ ok d) ↔ Spells s d
from_str-Spells s d = (from_str→Spells s d, Spells→from_str)
