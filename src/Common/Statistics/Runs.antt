-- ===== src/Common/Statistics/Runs.antt =====
-- The statistics of a short series of whole numbers.
use Prim.Native.Nat.{min, max}
use niceperf.Prelude.{
  ℕ, ◌-◌, ◌/◌, Option, none, some, List, ◌+◌, ◌*◌, ◌≤◌, ◌≡◌, refl, [], ◌∷◌, arith,
}
use niceperf.Common.Statistics.{Float, new, update, updates}
use niceperf.Common.Statistics.Bounds.{IsOrdered, Bounds, updates-Bounds}
use niceperf.Common.Statistics.Moments.{Semiring, Moments, sum, squares, updates-Moments}
use niceperf.Ping.Echo.Plain.{whole}

-- Whole numbers and a NaN, which `min` and `max` give up for the other argument, as those of f64 do.
abbrev or_nan : (ℕ → ℕ → ℕ) → Option ℕ → Option ℕ → Option ℕ
or_nan op (some a) (some b) = some (op a b)
or_nan op _ _ = none

abbrev number_of : (ℕ → ℕ → ℕ) → Option ℕ → Option ℕ → Option ℕ
number_of op (some a) (some b) = some (op a b)
number_of op (some a) none = some a
number_of op none b = b

abbrev with_nan : Float (Option ℕ)
with_nan = record {
  nan = none;
  zero = some 0;
  of_ℕ = λ n. some n;
  add = or_nan (λ a b. a + b);
  sub = or_nan (λ a b. a - b);
  mul = or_nan (λ a b. a * b);
  div = or_nan (λ a b. a / b);
  sqrt = λ a. a;
  min = number_of (λ a b. min a b);
  max = number_of (λ a b. max a b);
}

abbrev Number : Option ℕ → Type 0
Number none = ⊥
Number (some a) = Unit {0}

-- `<=` of f64, which no NaN meets.
abbrev AtMost : Option ℕ → Option ℕ → Type 0
AtMost (some a) (some b) = a ≤ b
AtMost _ _ = ⊥

AtMost-trans : (a b c : Option ℕ) → AtMost a b → AtMost b c → AtMost a c
AtMost-trans (some a) (some b) (some c) h k = omega arith
AtMost-trans none b c h k = absurd h
AtMost-trans (some a) none c h k = absurd h
AtMost-trans (some a) (some b) none h k = absurd k

Number-refl : (a : Option ℕ) → Number a → AtMost a a
Number-refl (some a) n = omega arith
Number-refl none n = absurd n

-- What holds of two numbers holds where they stand in `Option`.
two_numbers :
    (P : Option ℕ → Option ℕ → Type 0)
    → ((a b : ℕ) → P (some a) (some b))
    → (a b : Option ℕ) → Number a
    → Number b
    → P a b
two_numbers P h (some a) (some b) n n' = h a b
two_numbers P h none b n n' = absurd n
two_numbers P h (some a) none n n' = absurd n'

greatest_number :
    (a b c : Option ℕ) → AtMost c a → AtMost c b → AtMost c (number_of (λ x y. min x y) a b)
greatest_number (some a) (some b) (some c) h k = omega arith
greatest_number none b (some c) h k = absurd h
greatest_number (some a) none (some c) h k = absurd k
greatest_number a b none h k = absurd h

least_number :
    (a b c : Option ℕ) → AtMost a c → AtMost b c → AtMost (number_of (λ x y. max x y) a b) c
least_number (some a) (some b) (some c) h k = omega arith
least_number none b c h k = absurd h
least_number (some a) none c h k = absurd k
least_number (some a) (some b) none h k = absurd h

abbrev ordered : IsOrdered with_nan
ordered = record {
  Num = Number;
  Le = AtMost;
  le_refl = λ {a} n. Number-refl a n;
  le_trans = λ {a} {b} {c} n n' n'' h k. AtMost-trans a b c h k;
  min_num = λ {a} {b}. two_numbers (λ x y. Number (with_nan.min x y)) (λ x y. tt) a b;
  min_left = λ {a} {b}. two_numbers (λ x y. AtMost (with_nan.min x y) x) (λ x y. omega arith) a b;
  min_right = λ {a} {b}. two_numbers (λ x y. AtMost (with_nan.min x y) y) (λ x y. omega arith) a b;
  min_greatest = λ {a} {b} {c} n n' n'' h k. greatest_number a b c h k;
  max_num = λ {a} {b}. two_numbers (λ x y. Number (with_nan.max x y)) (λ x y. tt) a b;
  max_left = λ {a} {b}. two_numbers (λ x y. AtMost x (with_nan.max x y)) (λ x y. omega arith) a b;
  max_right = λ {a} {b}. two_numbers (λ x y. AtMost y (with_nan.max x y)) (λ x y. omega arith) a b;
  max_least = λ {a} {b} {c} n n' n'' h k. least_number a b c h k;
}

three_samples : (updates whole (new whole) (5 ∷ 2 ∷ 9 ∷ [])).min ≡ 2
unfolding updates update new
three_samples = refl

abbrev samples : List (Option ℕ)
samples = some 5 ∷ some 2 ∷ some 9 ∷ []

updates-Bounds_example : Bounds with_nan ordered (updates with_nan (new with_nan) samples) samples
updates-Bounds_example =
    updates-Bounds with_nan ordered (some 5) (some 2 ∷ some 9 ∷ []) (omega arith)
      (tt, (tt, (tt, tt)))

abbrev semiring : Semiring ℕ
semiring = record {
  zero = 0;
  of_ℕ = λ n. n;
  add = λ a b. a + b;
  mul = λ a b. a * b;
  add_assoc = λ a b c. omega arith;
  add_comm = λ a b. omega arith;
  zero-add = λ a. omega arith;
  mul_assoc = λ a b c. omega arith;
  mul_comm = λ a b. omega arith;
  mul-add = λ a b c. omega arith;
  of_one = λ a. omega arith;
  of_suc = λ n a. omega arith;
}

-- The means 5, 6 and 7 are whole numbers.
updates-Moments_example :
    Moments whole semiring
      (λ a. a)
      (updates whole (new whole) (5 ∷ 7 ∷ 9 ∷ []))
      (sum whole semiring (λ a. a) 5 (7 ∷ 9 ∷ []))
      (squares whole semiring (λ a. a) 25 (7 ∷ 9 ∷ []))
unfolding new
updates-Moments_example =
    updates-Moments whole semiring (λ a. a) 5 (7 ∷ 9 ∷ []) (omega arith) refl
      (
        record {
          from_old = refl;
          quotient = refl;
          mean = refl;
          from_new = refl;
          product = refl;
          total = refl;
        },
        (
          record {
            from_old = refl;
            quotient = refl;
            mean = refl;
            from_new = refl;
            product = refl;
            total = refl;
          },
          tt,
        ),
      )
