-- ===== src/Common/Statistics.antt =====
-- `Statistics` (common/src/lib.rs): a running mean and variance by Welford's recurrence, and the extremes.
-- `f64` is a parameter: any type with the operations that the code uses. `samples` is a
-- `usize` that wraps, as in a release build; in a debug build the value after 2 ^ 64 - 1 others panics.
pub mod Series
pub mod Bounds
pub mod Moments
mod Runs
use Prim.Native.String.{String, ◌++◌}
use mathlib.Core.List.{foldl}
use niceperf.Prelude.{ℕ, ◌+◌, ◌%◌, ◌^◌, List, ◌==◌, if◌then◌else◌}

pub record Float (F : Type 0) : Type 0 where
  pub nan : F
  pub zero : F
  pub of_ℕ : ℕ → F
  pub add : F → F → F
  pub sub : F → F → F
  pub mul : F → F → F
  pub div : F → F → F
  pub sqrt : F → F
  pub min : F → F → F
  pub max : F → F → F

pub record Statistics (F : Type 0) : Type 0 where
  pub mean : F
  pub variance : F
  pub standard_deviation : F
  pub min : F
  pub max : F
  pub samples : ℕ

module _ {F : Type 0} (f : Float F) where
  unfoldable pub new : Statistics F
  new = record {
    mean = f.nan;
    variance = f.nan;
    standard_deviation = f.nan;
    min = f.nan;
    max = f.nan;
    samples = 0;
  }

  -- `variance()`, of the whole population.
  unfoldable pub variance : Statistics F → F
  variance s = f.div s.variance (f.of_ℕ s.samples)

  unfoldable pub standard_deviation : Statistics F → F
  unfolding variance
  standard_deviation s = f.sqrt (variance s)

  -- The first value, and each later one.
  abbrev pub first : Statistics F → F → Statistics F
  first s value = record {
    mean = value;
    variance = f.zero;
    standard_deviation = f.zero;
    min = value;
    max = value;
    samples = (s.samples + 1) % 2 ^ 64;
  }

  abbrev pub later : Statistics F → F → Statistics F
  later s value =
      let samples = (s.samples + 1) % 2 ^ 64 in
      let old_mean = s.mean in
      let mean = f.add old_mean (f.div (f.sub value old_mean) (f.of_ℕ samples)) in
      record s {
        samples = samples;
        mean = mean;
        variance = f.add s.variance (f.mul (f.sub value old_mean) (f.sub value mean));
        min = f.min s.min value;
        max = f.max s.max value;
      }

  unfoldable pub update : Statistics F → F → Statistics F
  update s value = if (s.samples + 1) % 2 ^ 64 == 1 then first s value else later s value

  -- A series of updates.
  unfoldable pub updates : Statistics F → List F → Statistics F
  updates = foldl update

-- `<Statistics as Display>::fmt`, given what `{:.2}` makes of an f64 and `{}` of a `usize`.
module _ {F : Type 0} (f : Float F) (two_decimals : F → String) (decimal : ℕ → String) where
  unfoldable pub fmt : Statistics F → String
  unfolding variance standard_deviation
  fmt s =
      "mean: "
      ++ two_decimals s.mean
      ++ " variance: "
      ++ two_decimals (variance f s)
      ++ " standard deviation: "
      ++ two_decimals (standard_deviation f s)
      ++ " min: "
      ++ two_decimals s.min
      ++ " max: "
      ++ two_decimals s.max
      ++ " samples: "
      ++ decimal s.samples
