-- ===== src/Common/Statistics/Moments.antt =====
-- The mean and the variance of a series whose arithmetic is exact.
use niceperf.Prelude.{ℕ, ◌+◌, ◌^◌, ◌≤◌, ◌<◌, ◌≡◌, sym, ap, ◌∙◌, List, [], ◌∷◌, arith, length}
use niceperf.Common.Statistics.{Float, Statistics, new, updates, first, later}
use niceperf.Common.Statistics.Series.{wrapped, updates-later, updates_started}

-- Numbers that sums and products do not round, such as the rational ones; a count is the sum of as many
-- ones.
pub record Semiring (R : Type 0) : Type 0 where
  pub zero : R
  pub of_ℕ : ℕ → R
  pub add : R → R → R
  pub mul : R → R → R
  pub add_assoc : (a b c : R) → add (add a b) c ≡ add a (add b c)
  pub add_comm : (a b : R) → add a b ≡ add b a
  pub zero-add : (a : R) → add zero a ≡ a
  pub mul_assoc : (a b c : R) → mul (mul a b) c ≡ mul a (mul b c)
  pub mul_comm : (a b : R) → mul a b ≡ mul b a
  pub mul-add : (a b c : R) → mul a (add b c) ≡ add (mul a b) (mul a c)
  pub of_one : (a : R) → mul (of_ℕ 1) a ≡ a
  pub of_suc : (n : ℕ) (a : R) → mul (of_ℕ (n + 1)) a ≡ add (mul (of_ℕ n) a) a

-- `val` is the number that an f64 stands for.
module _ {F R : Type 0} (f : Float F) (r : Semiring R) (val : F → R) where
  abbrev pub mean_after : Statistics F → F → F
  mean_after s v = f.add s.mean (f.div (f.sub v s.mean) (f.of_ℕ (s.samples + 1)))

  -- No step of this update rounds: neither the two differences, the quotient and the new mean, nor the
  -- product and the new variance. Other operations may round.
  pub record IsExact (s : Statistics F) (v : F) : Type 0 where
    pub from_old : r.add (val s.mean) (val (f.sub v s.mean)) ≡ val v
    pub quotient :
        r.mul (r.of_ℕ (s.samples + 1)) (val (f.div (f.sub v s.mean) (f.of_ℕ (s.samples + 1))))
        ≡ val (f.sub v s.mean)
    pub mean :
        val (mean_after s v)
        ≡ r.add (val s.mean) (val (f.div (f.sub v s.mean) (f.of_ℕ (s.samples + 1))))
    pub from_new : r.add (val (mean_after s v)) (val (f.sub v (mean_after s v))) ≡ val v
    pub product :
        val (f.mul (f.sub v s.mean) (f.sub v (mean_after s v)))
        ≡ r.mul (val (f.sub v s.mean)) (val (f.sub v (mean_after s v)))
    pub total :
        val (f.add s.variance (f.mul (f.sub v s.mean) (f.sub v (mean_after s v))))
        ≡ r.add (val s.variance) (val (f.mul (f.sub v s.mean) (f.sub v (mean_after s v))))

  -- So it is in all updates of a series.
  abbrev pub AllExact : Statistics F → List F → Type 0
  AllExact s [] = Unit {0}
  AllExact s (v ∷ values) = IsExact s v × AllExact (later f s v) values

  -- The sum of a series and that of its squares.
  abbrev pub sum : R → List F → R
  sum acc [] = acc
  sum acc (v ∷ values) = sum (r.add acc (val v)) values

  abbrev pub squares : R → List F → R
  squares acc [] = acc
  squares acc (v ∷ values) = squares (r.add acc (r.mul (val v) (val v))) values

  -- The mean, times the count, is the sum; the variance that is kept is the sum of the squares less the
  -- count times the square of the mean.
  pub record Moments (s : Statistics F) (total total_squares : R) : Type 0 where
    pub mean_is : r.mul (r.of_ℕ s.samples) (val s.mean) ≡ total
    pub variance_is :
        r.add (val s.variance) (r.mul (r.of_ℕ s.samples) (r.mul (val s.mean) (val s.mean)))
        ≡ total_squares

module _ {R : Type 0} (r : Semiring R) where
  infixl 65 ◌⊕◌
  infixl 70 ◌⊗◌
  abbrev ◌⊕◌ : R → R → R
  a ⊕ b = r.add a b

  abbrev ◌⊗◌ : R → R → R
  a ⊗ b = r.mul a b

  regroup : (a b c d : R) → a ⊕ (b ⊕ (c ⊕ d)) ≡ (b ⊕ c) ⊕ (a ⊕ d)
  regroup a b c d =
      ap (λ x. a ⊕ x) (sym (r.add_assoc b c d))
      ∙ sym (r.add_assoc a (b ⊕ c) d)
      ∙ ap (λ x. x ⊕ d) (r.add_comm a (b ⊕ c))
      ∙ r.add_assoc (b ⊕ c) a d

  add-mul : (a b c : R) → (a ⊕ b) ⊗ c ≡ (a ⊗ c) ⊕ (b ⊗ c)
  add-mul a b c =
      r.mul_comm (a ⊕ b) c
      ∙ r.mul-add c a b
      ∙ ap (λ x. x ⊕ (c ⊗ b)) (r.mul_comm c a)
      ∙ ap (λ x. (a ⊗ c) ⊕ x) (r.mul_comm c b)

  mul_swap : (a b c : R) → a ⊗ (b ⊗ c) ≡ b ⊗ (a ⊗ c)
  mul_swap a b c = sym (r.mul_assoc a b c) ∙ ap (λ x. x ⊗ c) (r.mul_comm a b) ∙ r.mul_assoc b a c

  -- The new mean, of one more value.
  mean_step :
      (n : ℕ) (m q d v : R)
      → r.of_ℕ (n + 1) ⊗ q ≡ d
      → m ⊕ d ≡ v
      → r.of_ℕ (n + 1) ⊗ (m ⊕ q) ≡ (r.of_ℕ n ⊗ m) ⊕ v
  mean_step n m q d v exact back =
      r.mul-add (r.of_ℕ (n + 1)) m q
      ∙ ap (λ x. x ⊕ (r.of_ℕ (n + 1) ⊗ q)) (r.of_suc n m)
      ∙ ap (λ x. ((r.of_ℕ n ⊗ m) ⊕ m) ⊕ x) exact
      ∙ r.add_assoc (r.of_ℕ n ⊗ m) m d
      ∙ ap (λ x. (r.of_ℕ n ⊗ m) ⊕ x) back

  -- The part of the sum of squares that the means have, with the new mean.
  means_part :
      (n : ℕ) (m m' v : R)
      → r.of_ℕ (n + 1) ⊗ m' ≡ (r.of_ℕ n ⊗ m) ⊕ v
      → ((r.of_ℕ n ⊗ m) ⊗ m') ⊕ (m ⊗ m') ≡ (r.of_ℕ n ⊗ (m ⊗ m)) ⊕ (m ⊗ v)
  means_part n m m' v new_mean =
      sym (add-mul (r.of_ℕ n ⊗ m) m m')
      ∙ ap (λ x. x ⊗ m') (sym (r.of_suc n m))
      ∙ r.mul_assoc (r.of_ℕ (n + 1)) m m'
      ∙ mul_swap (r.of_ℕ (n + 1)) m m'
      ∙ ap (λ x. m ⊗ x) new_mean
      ∙ r.mul-add m (r.of_ℕ n ⊗ m) v
      ∙ ap (λ x. x ⊕ (m ⊗ v)) (mul_swap m (r.of_ℕ n) m)

  -- The part that the differences have.
  differences_part : (m' v d e : R) → m' ⊕ e ≡ v → (d ⊗ e) ⊕ (d ⊗ m') ≡ d ⊗ v
  differences_part m' v d e back = sym (r.mul-add d e m') ∙ ap (λ x. d ⊗ x) (r.add_comm e m' ∙ back)

  square_step :
      (n : ℕ) (m m' v d e : R)
      → r.of_ℕ (n + 1) ⊗ m' ≡ (r.of_ℕ n ⊗ m) ⊕ v
      → m ⊕ d ≡ v
      → m' ⊕ e ≡ v
      → (d ⊗ e) ⊕ (r.of_ℕ (n + 1) ⊗ (m' ⊗ m')) ≡ (r.of_ℕ n ⊗ (m ⊗ m)) ⊕ (v ⊗ v)
  square_step n m m' v d e new_mean back back' =
      ap (λ x. (d ⊗ e) ⊕ x)
        (sym (r.mul_assoc (r.of_ℕ (n + 1)) m' m')
          ∙ ap (λ x. x ⊗ m') new_mean
          ∙ add-mul (r.of_ℕ n ⊗ m) v m'
          ∙ ap (λ x. ((r.of_ℕ n ⊗ m) ⊗ m') ⊕ (x ⊗ m')) (sym back)
          ∙ ap (λ x. ((r.of_ℕ n ⊗ m) ⊗ m') ⊕ x) (add-mul m d m'))
      ∙ regroup (d ⊗ e) ((r.of_ℕ n ⊗ m) ⊗ m') (m ⊗ m') (d ⊗ m')
      ∙ ap (λ x. x ⊕ ((d ⊗ e) ⊕ (d ⊗ m'))) (means_part n m m' v new_mean)
      ∙ ap (λ x. ((r.of_ℕ n ⊗ (m ⊗ m)) ⊕ (m ⊗ v)) ⊕ x) (differences_part m' v d e back')
      ∙ r.add_assoc (r.of_ℕ n ⊗ (m ⊗ m)) (m ⊗ v) (d ⊗ v)
      ∙ ap (λ x. (r.of_ℕ n ⊗ (m ⊗ m)) ⊕ x) (sym (add-mul m d v) ∙ ap (λ x. x ⊗ v) back)

module _ {F R : Type 0} (f : Float F) (r : Semiring R) (val : F → R) where
  later-Moments :
      (s : Statistics F) (v : F) (total total_squares : R)
      → s.samples + 1 < 2 ^ 64
      → IsExact f r val s v
      → Moments f r val s total total_squares
      → Moments f r val
          (later f s v)
          (r.add total (val v))
          (r.add total_squares (r.mul (val v) (val v)))
  later-Moments s v total total_squares few exact h =
      let n = s.samples in
      let d = val (f.sub v s.mean) in
      let e = val (f.sub v (mean_after f r val s v)) in
      let m' = val (mean_after f r val s v) in
      let new_mean : r.mul (r.of_ℕ (n + 1)) m' ≡ r.add (r.mul (r.of_ℕ n) (val s.mean)) (val v) =
        ap (r.mul (r.of_ℕ (n + 1))) exact.mean
        ∙ mean_step r n (val s.mean) _ d (val v) exact.quotient exact.from_old in
      rw (wrapped n few) (record {
        mean_is = new_mean ∙ ap (λ x. r.add x (val v)) h.mean_is;
        variance_is =
            ap (λ x. r.add x (r.mul (r.of_ℕ (n + 1)) (r.mul m' m')))
              (exact.total ∙ ap (r.add (val s.variance)) exact.product)
            ∙ r.add_assoc (val s.variance) (r.mul d e) (r.mul (r.of_ℕ (n + 1)) (r.mul m' m'))
            ∙ ap (r.add (val s.variance))
                (square_step r n (val s.mean) m' (val v) d e new_mean exact.from_old exact.from_new)
            ∙ sym (
                r.add_assoc (val s.variance) (r.mul (r.of_ℕ n) (r.mul (val s.mean) (val s.mean)))
                  (r.mul (val v) (val v)))
            ∙ ap (λ x. r.add x (r.mul (val v) (val v))) h.variance_is;
      })

  series-Moments :
      (s : Statistics F) (values : List F) (total total_squares : R)
      → 1 ≤ s.samples
      → s.samples + length values < 2 ^ 64
      → AllExact f r val s values
      → Moments f r val s total total_squares
      → Moments f r val
          (updates f s values)
          (sum f r val total values)
          (squares f r val total_squares values)
  series-Moments s [] total total_squares some few exact h = unfold updates in h
  series-Moments s (v ∷ values) total total_squares some few exact h =
      let one = wrapped s.samples (omega arith) in
      rw (updates-later f s v values some (omega arith)) (
        series-Moments (later f s v) values (r.add total (val v))
          (r.add total_squares (r.mul (val v) (val v))) (rw one (omega arith))
          (rw one (omega arith)) exact.1
          (later-Moments s v total total_squares (omega arith) exact.0 h))

  -- Where no step of the updates of a series rounds, the mean times the count is the sum of the values,
  -- and the variance that is kept is the sum of their squares less the count times the square of the
  -- mean, all as exact numbers. There is at least one value, and fewer than 2 ^ 64. Nothing is assumed
  -- of an operation that the updates do not make.
  pub updates-Moments :
      (x : F) (xs : List F)
      → length xs + 1 < 2 ^ 64
      → val f.zero ≡ r.zero
      → AllExact f r val (first f (new f) x) xs
      → Moments f r val
          (updates f (new f) (x ∷ xs))
          (sum f r val (val x) xs)
          (squares f r val (r.mul (val x) (val x)) xs)
  updates-Moments x xs few nothing exact = rw (updates_started f x xs) (
      series-Moments (first f (new f) x) xs (val x) (r.mul (val x) (val x))
        (unfold new in omega arith) (unfold new in omega arith) exact
        (unfold new in
          record {
            mean_is = r.of_one (val x);
            variance_is =
                ap (λ z. r.add z (r.mul (r.of_ℕ 1) (r.mul (val x) (val x)))) nothing
                ∙ r.zero-add _
                ∙ r.of_one (r.mul (val x) (val x));
          }))
