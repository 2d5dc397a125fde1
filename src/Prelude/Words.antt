-- ===== src/Prelude/Words.antt =====
-- Machine words as numbers, and the arithmetic of Rust's unsigned types under the two settings of
-- `overflow-checks`: on in the debug profile, off in the release profile.
use Prim.Native.Nat.{ℕ, zero, suc, ◌+◌, ◌-◌, ◌*◌, ◌/◌, ◌%◌, ◌^◌, ◌<◌}
use mathlib.Core.Path.{◌≡◌, refl, ◌∙◌}
use mathlib.Core.List.{[], ◌∷◌, ◌++◌}
use native.Mathlib.Omega.{arith}
use niceperf.Prelude.Tests.{ltb, leb, if◌then◌else◌}
use niceperf.Prelude.Lists.{Bytes, length, length-append}
use niceperf.Prelude.Outcome.{Outcome, ok, panic}

pub data Profile : Type 0 where
  debug release : Profile

-- What an operation with the exact result `n`, not representable, does.
abbrev overflow : {E : Type 0} → Profile → ℕ → Outcome E ℕ
overflow debug n = panic
overflow release n = ok n

-- `a * b` and `a - b` at the width `w`.
unfoldable pub mul_word : {E : Type 0} → Profile → ℕ → ℕ → ℕ → Outcome E ℕ
mul_word p w a b = if ltb (a * b) (2 ^ w) then ok (a * b) else overflow p (a * b % 2 ^ w)

unfoldable pub sub_word : {E : Type 0} → Profile → ℕ → ℕ → ℕ → Outcome E ℕ
sub_word p w a b = if leb b a then ok (a - b) else overflow p ((a + 2 ^ w - b) % 2 ^ w)

-- `to_be_bytes` of a word of `k` bytes, and `from_be_bytes`.
unfoldable pub to_be_bytes : ℕ → ℕ → Bytes
to_be_bytes zero n = []
to_be_bytes (suc k) n = to_be_bytes k (n / 256) ++ (n % 256) ∷ []

from_be : ℕ → Bytes → ℕ
from_be acc [] = acc
from_be acc (b ∷ bs) = from_be (acc * 256 + b) bs

unfoldable pub from_be_bytes : Bytes → ℕ
unfolding from_be
from_be_bytes = from_be 0

from_be-append : (acc b : ℕ) (bs : Bytes) → from_be acc (bs ++ b ∷ []) ≡ from_be acc bs * 256 + b
unfolding from_be
from_be-append acc b [] = refl
from_be-append acc b (c ∷ bs) = from_be-append (acc * 256 + c) b bs

pub length-to_be_bytes : (k n : ℕ) → length (to_be_bytes k n) ≡ k
unfolding to_be_bytes
length-to_be_bytes zero n = refl
length-to_be_bytes (suc k) n =
    length-append (to_be_bytes k (n / 256)) ((n % 256) ∷ [])
    ∙ omega (arith, length-to_be_bytes k (n / 256))

-- A word that fits its bytes is read back.
pub from_be_bytes-to_be_bytes : (k n : ℕ) → n < 256 ^ k → from_be_bytes (to_be_bytes k n) ≡ n
unfolding from_be_bytes to_be_bytes
from_be_bytes-to_be_bytes zero n h = omega arith
from_be_bytes-to_be_bytes (suc k) n h =
    from_be-append 0 (n % 256) (to_be_bytes k (n / 256))
    ∙ omega (arith, from_be_bytes-to_be_bytes k (n / 256) (omega arith))
