-- ===== src/Throughput/Bandwidth/Runs.antt =====
-- Runs of `Bandwidth::from_str`, and the theorems at concrete inputs.
use niceperf.Prelude.{ℕ, ◌*◌, ◌^◌, ◌<◌, ◌≡◌, ◌≢◌, refl, List, [], ◌++◌, some, codes, last?, All}
use niceperf.Prelude.Outcome.{ok, err, panic}
use niceperf.Prelude.Words.{debug, release, mul_word}
use niceperf.Prelude.Digits.{parse_u64, IsDigit, value, empty}
use niceperf.Throughput.Bandwidth.{
  from_str, parse_num, parse_int, scale, take_digits, to_ascii_lowercase, into,
}
use niceperf.Throughput.Bandwidth.Parse.{mega, upper, factor_of, from_str-letters, from_str_sound}

ten_mega : from_str debug (codes "10M") ≡ ok (record { num = 10000000 })
unfolding from_str parse_num parse_u64 take_digits scale to_ascii_lowercase mul_word
ten_mega = refl

nothing_to_read : from_str debug (codes "k") ≡ err (parse_int empty)
unfolding from_str parse_num parse_u64 take_digits
nothing_to_read = refl

-- 18446744074 Gbit/s has no u64.
too_wide : from_str debug (codes "18446744074g") ≡ panic
unfolding from_str parse_num parse_u64 take_digits scale to_ascii_lowercase mul_word
too_wide = refl

wrapped : from_str release (codes "18446744074g") ≡ ok (record { num = 290448384 })
unfolding from_str parse_num parse_u64 take_digits scale to_ascii_lowercase mul_word
wrapped = refl

from_str-letters_example : from_str debug (codes "10M") ≡ ok (record { num = 10000000 })
from_str-letters_example = from_str-letters debug (codes "10") mega upper (cc) (refl, (refl, tt))

from_str_sound_example :
    (ds : List ℕ) × (rest : List ℕ) × (c : ℕ) × (codes "10M" ≡ ds ++ rest)
    × (ds ≢ [])
    × All IsDigit ds
    × (last? (codes "10M") ≡ some c)
    × (into (record { num = 10000000 }) ≡ value ds * factor_of c)
    × (into (record { num = 10000000 }) < 2 ^ 64)
from_str_sound_example = from_str_sound (codes "10M") (record { num = 10000000 }) ten_mega
