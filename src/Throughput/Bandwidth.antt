-- ===== src/Throughput/Bandwidth.antt =====
-- `Bandwidth` and its `FromStr` (throughput/src/args.rs). A text is the list of its characters' code
-- points; the proofs are in the modules below this one.
pub mod Parse
mod Runs
use mathlib.Core.Bool.{◌&&◌}
use niceperf.Prelude.{ℕ, ◌+◌, List, [], ◌∷◌, leb, ◌==◌, if◌then◌else◌, last?}
use niceperf.Prelude.Outcome.{Outcome, ok, err, panic, ◌>>=◌, ok_or}
use niceperf.Prelude.Words.{Profile, mul_word}
use niceperf.Prelude.Digits.{ParseIntError, is_digit, parse_u64}

-- `Bandwidth(u64)`, in bits per second.
pub record Bandwidth : Type 0 where
  pub num : ℕ

-- `Into<u64>`
unfoldable pub into : Bandwidth → ℕ
into b = b.num

pub data ParseError : Type 0 where
  parse_int : ParseIntError → ParseError
  no_unit : ParseError

-- `chars().take_while(|c| c.is_digit(10))`
unfoldable pub take_digits : List ℕ → List ℕ
take_digits [] = []
take_digits (c ∷ cs) = if is_digit c then c ∷ take_digits cs else []

-- `char::to_ascii_lowercase`
unfoldable pub to_ascii_lowercase : ℕ → ℕ
to_ascii_lowercase c = if leb b'A' c && leb c b'Z' then c + 32 else c

-- `?` on the parse: an error of the standard library becomes an `anyhow::Error`.
abbrev anyhow : Outcome ParseIntError ℕ → Outcome ParseError ℕ
anyhow (ok n) = ok n
anyhow (err e) = err (parse_int e)
anyhow panic = panic

parse_num : List ℕ → Outcome ParseError ℕ
parse_num s = anyhow (parse_u64 (take_digits s))

-- The `match unit`: `num *= …` panics or wraps where the product is no u64.
scale : Profile → ℕ → ℕ → Outcome ParseError ℕ
scale p num unit =
    if unit == b'k'
    then mul_word p 64 num 1000
    else if unit == b'm'
    then mul_word p 64 num 1000000
    else if unit == b'g'
    then mul_word p 64 num 1000000000
    else ok num

pub from_str : Profile → List ℕ → Outcome ParseError Bandwidth
from_str p s = do
  num ← parse_num s
  last ← ok_or (last? s) no_unit
  scaled ← scale p num (to_ascii_lowercase last)
  ok (record { num = scaled })
