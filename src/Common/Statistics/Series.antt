-- ===== src/Common/Statistics/Series.antt =====
-- What an update of a series does: the first value, and each later one.
use niceperf.Prelude.{ℕ, ◌+◌, ◌%◌, ◌^◌, ◌≤◌, ◌<◌, ◌≡◌, refl, false, List, ◌∷◌, arith, ◌==◌}
use niceperf.Common.Statistics.{Float, Statistics, new, update, updates, first, later}

pub wrapped : (n : ℕ) → n + 1 < 2 ^ 64 → (n + 1) % 2 ^ 64 ≡ n + 1
wrapped n few = omega arith

not_first : (n : ℕ) → 1 ≤ n → (n + 1 == 1) ≡ false
not_first n some = ground arith

module _ {F : Type 0} (f : Float F) where
  pub update-later :
      (s : Statistics F) (v : F)
      → 1 ≤ s.samples
      → s.samples + 1 < 2 ^ 64
      → update f s v ≡ later f s v
  unfolding update
  update-later s v some few = rw (wrapped s.samples few, not_first s.samples some)

  pub updates-later :
      (s : Statistics F) (v : F) (values : List F)
      → 1 ≤ s.samples
      → s.samples + 1 < 2 ^ 64
      → updates f s (v ∷ values) ≡ updates f (later f s v) values
  unfolding updates
  updates-later s v values some few = rw (update-later s v some few)

  pub updates_started :
      (x : F) (xs : List F) → updates f (new f) (x ∷ xs) ≡ updates f (first f (new f) x) xs
  unfolding updates update new
  updates_started x xs = refl
