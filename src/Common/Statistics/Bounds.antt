-- ===== src/Common/Statistics/Bounds.antt =====
-- The number of samples and the extremes of a series.
use niceperf.Prelude.{◌+◌, ◌^◌, ◌≤◌, ◌<◌, ◌≡◌, ◌∙◌, List, [], ◌∷◌, arith, length, All}
use niceperf.Common.Statistics.{Float, Statistics, new, updates, first, later}
use niceperf.Common.Statistics.Series.{wrapped, updates-later, updates_started}

-- What is used of `f64::min` and `f64::max`: on the numbers, which NaN is not one of, they are the
-- bounds of an order. Nothing is assumed of other values.
pub record IsOrdered {F : Type 0} (f : Float F) : Type 1 where
  pub Num : F → Type 0
  pub Le : F → F → Type 0
  pub le_refl : {a : F} → Num a → Le a a
  pub le_trans : {a b c : F} → Num a → Num b → Num c → Le a b → Le b c → Le a c
  pub min_num : {a b : F} → Num a → Num b → Num (f.min a b)
  pub min_left : {a b : F} → Num a → Num b → Le (f.min a b) a
  pub min_right : {a b : F} → Num a → Num b → Le (f.min a b) b
  pub min_greatest : {a b c : F} → Num a → Num b → Num c → Le c a → Le c b → Le c (f.min a b)
  pub max_num : {a b : F} → Num a → Num b → Num (f.max a b)
  pub max_left : {a b : F} → Num a → Num b → Le a (f.max a b)
  pub max_right : {a b : F} → Num a → Num b → Le b (f.max a b)
  pub max_least : {a b c : F} → Num a → Num b → Num c → Le a c → Le b c → Le (f.max a b) c

module _ {F : Type 0} (f : Float F) (o : IsOrdered f) where
  -- `s'` extends the extremes of `s` by the values, and no further.
  record Extends (s s' : Statistics F) (values : List F) : Type 0 where
    counted : s'.samples ≡ s.samples + length values
    min_num : o.Num s'.min
    max_num : o.Num s'.max
    min_below : o.Le s'.min s.min
    max_above : o.Le s.max s'.max
    lower : All (o.Le s'.min) values
    upper : All (λ v. o.Le v s'.max) values
    greatest : (c : F) → o.Num c → o.Le c s.min → All (o.Le c) values → o.Le c s'.min
    least : (c : F) → o.Num c → o.Le s.max c → All (λ v. o.Le v c) values → o.Le s'.max c

  updates-Extends :
      (s : Statistics F) (values : List F)
      → 1 ≤ s.samples
      → s.samples + length values < 2 ^ 64
      → o.Num s.min
      → o.Num s.max
      → All o.Num values
      → Extends s (updates f s values) values
  updates-Extends s [] some few lo hi nums =
      unfold updates in
      record {
        counted = omega arith;
        min_num = lo;
        max_num = hi;
        min_below = o.le_refl lo;
        max_above = o.le_refl hi;
        lower = tt;
        upper = tt;
        greatest = λ c num below values. below;
        least = λ c num above values. above;
      }
  updates-Extends s (v ∷ values) some few lo hi (num, nums) =
      let one = wrapped s.samples (omega arith) in
      let rest =
        updates-Extends (later f s v) values (rw one (omega arith)) (rw one (omega arith))
          (o.min_num lo num) (o.max_num hi num) nums in
      rw (updates-later f s v values some (omega arith)) (record {
        counted = rest.counted ∙ rw one (omega arith);
        min_num = rest.min_num;
        max_num = rest.max_num;
        min_below =
            o.le_trans rest.min_num (o.min_num lo num) lo rest.min_below (o.min_left lo num);
        max_above =
            o.le_trans hi (o.max_num hi num) rest.max_num (o.max_left hi num) rest.max_above;
        lower = (
          o.le_trans rest.min_num (o.min_num lo num) num rest.min_below (o.min_right lo num),
          rest.lower,
        );
        upper = (
          o.le_trans num (o.max_num hi num) rest.max_num (o.max_right hi num) rest.max_above,
          rest.upper,
        );
        greatest =
            λ c n below values. rest.greatest c n (o.min_greatest lo num n below values.0) values.1;
        least = λ c n above values. rest.least c n (o.max_least hi num n above values.0) values.1;
      })

  -- What the statistics say of a series of numbers.
  pub record Bounds (s : Statistics F) (values : List F) : Type 0 where
    pub counted : s.samples ≡ length values
    pub lower : All (o.Le s.min) values
    pub upper : All (λ v. o.Le v s.max) values
    pub greatest : (c : F) → o.Num c → All (o.Le c) values → o.Le c s.min
    pub least : (c : F) → o.Num c → All (λ v. o.Le v c) values → o.Le s.max c

  -- After a series of at least one number, none of them NaN, and fewer than 2 ^ 64, `samples` is its
  -- length, `min` is its greatest lower bound among the numbers and `max` its least upper bound.
  pub updates-Bounds :
      (x : F) (xs : List F)
      → length xs + 1 < 2 ^ 64
      → All o.Num (x ∷ xs)
      → Bounds (updates f (new f) (x ∷ xs)) (x ∷ xs)
  updates-Bounds x xs few (num, nums) =
      let rest =
        updates-Extends (first f (new f) x) xs (unfold new in omega arith)
          (unfold new in omega arith) num num nums in
      rw (updates_started f x xs) (record {
        counted = rest.counted ∙ (unfold new in omega arith);
        lower = (rest.min_below, rest.lower);
        upper = (rest.max_above, rest.upper);
        greatest = λ c n values. rest.greatest c n values.0 values.1;
        least = λ c n values. rest.least c n values.0 values.1;
      })
