-- ===== src/Prelude/Digits.antt =====
-- Decimal digits, and `str::parse::<u64>` of the standard library over a text's code points.
use Prim.Native.Nat.{ℕ, ◌+◌, ◌-◌, ◌*◌, ◌^◌, ◌≤◌, ◌<◌}
use mathlib.Core.Path.{◌≡◌, refl}
use mathlib.Core.Bool.{Bool, true, ◌&&◌}
use mathlib.Core.Logic.{◌≢◌}
use mathlib.Core.List.{List, [], ◌∷◌, foldl}
use native.Mathlib.Omega.{arith}
use niceperf.Prelude.Tests.{ltb, leb, ◌==◌, if◌then◌else◌}
use niceperf.Prelude.Lists.{All}
use niceperf.Prelude.Outcome.{Outcome, ok, err}

-- The kinds of `ParseIntError` that an unsigned parse can give.
pub data ParseIntError : Type 0 where
  empty invalid_digit pos_overflow : ParseIntError

-- `char::is_digit(10)`
abbrev pub is_digit : ℕ → Bool
is_digit c = leb b'0' c && leb c b'9'

abbrev pub IsDigit : ℕ → Type 0
IsDigit c = is_digit c ≡ true

-- One digit at a time, with `checked_mul` and `checked_add`.
parse_digits : ℕ → List ℕ → Outcome ParseIntError ℕ
parse_digits n [] = ok n
parse_digits n (c ∷ cs) =
    let rest = parse_digits (n * 10 + (c - b'0')) cs in
    if is_digit c
    then (if ltb (n * 10 + (c - b'0')) (2 ^ 64) then rest else err pos_overflow)
    else err invalid_digit

signed : ℕ → List ℕ → Outcome ParseIntError ℕ
unfolding parse_digits
signed c [] = if c == b'+' then err invalid_digit else parse_digits 0 (c ∷ [])
signed c (d ∷ ds) = if c == b'+' then parse_digits 0 (d ∷ ds) else parse_digits 0 (c ∷ d ∷ ds)

-- `str::parse::<u64>`: one leading `+` is allowed.
unfoldable pub parse_u64 : List ℕ → Outcome ParseIntError ℕ
unfolding signed
parse_u64 [] = err empty
parse_u64 (c ∷ cs) = signed c cs

-- The number that digits spell, with no bound.
abbrev pub value : List ℕ → ℕ
value = foldl (λ n c. n * 10 + (c - b'0')) 0

le-value_from : (n : ℕ) (ds : List ℕ) → n ≤ foldl (λ m c. m * 10 + (c - b'0')) n ds
le-value_from n [] = omega arith
le-value_from n (c ∷ ds) = omega (arith, le-value_from (n * 10 + (c - b'0')) ds)

parse_digits_lem :
    (ds : List ℕ) (n : ℕ)
    → All IsDigit ds
    → n < 2 ^ 64
    → parse_digits n ds ≡ (
        if ltb (foldl (λ m c. m * 10 + (c - b'0')) n ds) (2 ^ 64)
        then ok (foldl (λ m c. m * 10 + (c - b'0')) n ds)
        else err pos_overflow)
unfolding parse_digits
parse_digits_lem [] n all fits = ground arith
parse_digits_lem (c ∷ ds) n (d, all) fits =
    let m = n * 10 + (c - b'0') in ground (arith, parse_digits_lem ds m all, le-value_from m ds)

-- On one or more digits the parse gives their exact value, or an overflow when that has no u64.
pub parse_u64_lem :
    (ds : List ℕ)
    → ds ≢ []
    → All IsDigit ds
    → parse_u64 ds ≡ (if ltb (value ds) (2 ^ 64) then ok (value ds) else err pos_overflow)
unfolding parse_u64
parse_u64_lem [] ne all = absurd (ne refl)
parse_u64_lem (c ∷ []) ne all = ground (arith, parse_digits_lem (c ∷ []) 0 all (omega arith))
parse_u64_lem (c ∷ d ∷ ds) ne all =
    ground (arith, parse_digits_lem (c ∷ d ∷ ds) 0 all (omega arith))
