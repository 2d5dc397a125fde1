-- ===== src/Ping/LogTask/Counts.antt =====
-- What the log reader counts, writes and prints.
use niceperf.Prelude.{
  ℕ, ◌+◌, ◌%◌, ◌^◌, ◌≤◌, ◌<◌, ◌≡◌, refl, ◌∙◌, ap, Bool, true, false, List, [], ◌∷◌, ◌++◌, map,
  arith, length, All, append-nil, append_assoc, if◌then◌else◌, ◌==◌, Bool-cases, inl, inr, le→leb,
}
use niceperf.Prelude.Outcome.{Yields, Yields-bind, Yields-map}
use niceperf.Prelude.Words.{Profile, sub_word}
use niceperf.Common.Statistics.{Float, Statistics}
use niceperf.Common.Statistics as Stats
use niceperf.Ping.LogTask.{View, LogState, LogConfig, record_arrival, output, log_step, log_task}

module _ {F R : Type 0} (f : Float F) (view : View F R) where
  -- The arrivals of results never go back in time, from `t` on.
  abbrev pub Rising : ℕ → List (R × Bool) → Type 0
  Rising t [] = Unit {0}
  Rising t (r ∷ rs) = (t ≤ view.recv_timestamp r.0) × Rising (view.recv_timestamp r.0) rs

  abbrev pub Written : List (R × Bool) → Type 0
  Written = All (λ r. r.1 ≡ true)

  -- What a step that does not fail keeps of the state, but for the fields that it is about.
  record Arrived (s s' : LogState F R) (r : R) : Type 0 where
    counted : s'.recv_count ≡ s.recv_count
    timed : s'.time ≡ view.recv_timestamp r
    same_rows : s'.rows ≡ s.rows
    same_stats : s'.stats ≡ s.stats

  record_arrival_lem :
      (p : Profile) (s : LogState F R) (r : R)
      → s.time ≤ view.recv_timestamp r
      → Yields (λ s'. Arrived s s' r) (record_arrival f view p s r)
  unfolding record_arrival sub_word
  record_arrival_lem p s r h = elim (Bool-cases (s.recv_count == 0)) [
    | inl first ↦
        rw first (record { counted = refl; timed = refl; same_rows = refl; same_stats = refl })
    | inr later ↦
        rw (later, le→leb s.time (view.recv_timestamp r) h)
          (record { counted = refl; timed = refl; same_rows = refl; same_stats = refl })
  ]

  abbrev pub rows_after : LogConfig → List R → R → List R
  rows_after c rows r = if c.has_logger then rows ++ r ∷ [] else rows

  record Put (c : LogConfig) (s s' : LogState F R) (r : R) : Type 0 where
    counted : s'.recv_count ≡ s.recv_count
    timed : s'.time ≡ s.time
    new_rows : s'.rows ≡ rows_after c s.rows r
    same_stats : s'.stats ≡ s.stats

  output_lem :
      (c : LogConfig) (s : LogState F R) (r : R)
      → Yields (λ s'. Put c s s' r) (output f view c true s r)
  unfolding output
  output_lem c s r = ground arith

  -- What one result does to the state.
  pub record Logged (c : LogConfig) (s s' : LogState F R) (r : R) : Type 0 where
    pub counted : s'.recv_count ≡ (s.recv_count + 1) % 2 ^ 64
    pub timed : s'.time ≡ view.recv_timestamp r
    pub new_rows : s'.rows ≡ rows_after c s.rows r
    pub new_stats : s'.stats ≡ Stats.update f s.stats (view.rtt r)

  pub log_step_lem :
      (c : LogConfig) (s : LogState F R) (r : R)
      → s.time ≤ view.recv_timestamp r
      → Yields (λ s'. Logged c s s' r) (log_step f view c s (r, true))
  unfolding log_step
  log_step_lem c s r h =
      Yields-bind (λ s'. Arrived s s' r) (λ s'. Logged c s s' r)
        (record_arrival f view c.profile s r) _ (record_arrival_lem c.profile s r h)
        λ s₁ a.
          Yields-bind (λ s'. Put c _ s' r) (λ s'. Logged c s s' r) _ _ (output_lem c _ r)
            λ s₂ o. record {
              counted = ap (λ n. (n + 1) % 2 ^ 64) (o.counted ∙ a.counted);
              timed = o.timed ∙ a.timed;
              new_rows = o.new_rows ∙ ap (λ l. rows_after c l r) a.same_rows;
              new_stats = o.same_stats ∙ ap (λ t. Stats.update f t (view.rtt r)) a.same_stats;
            }

  abbrev pub results : List (R × Bool) → List R
  results = map (λ r. r.0)

  abbrev pub rows_all : LogConfig → List R → List R → List R
  rows_all c rows new = if c.has_logger then rows ++ new else rows

  rows_all-cons :
      (c : LogConfig) (rows new : List R) (r : R)
      → rows_all c (rows_after c rows r) new ≡ rows_all c rows (r ∷ new)
  rows_all-cons c rows new r = elim (Bool-cases c.has_logger) [
    | inl yes_file ↦ rw yes_file (append_assoc rows (r ∷ []) new)
    | inr no_file ↦ rw no_file
  ]

  rows_all-nil : (c : LogConfig) (rows : List R) → rows ≡ rows_all c rows []
  rows_all-nil c rows = elim (Bool-cases c.has_logger) [
    | inl yes_file ↦ rw (yes_file, append-nil)
    | inr no_file ↦ rw no_file
  ]

  -- What a series of results does to the state.
  pub record LoggedAll (c : LogConfig) (s s' : LogState F R) (rs : List (R × Bool)) : Type 0 where
    pub counted : s'.recv_count ≡ s.recv_count + length rs
    pub all_rows : s'.rows ≡ rows_all c s.rows (results rs)
    pub all_stats : s'.stats ≡ Stats.updates f s.stats (map (λ r. view.rtt r.0) rs)

  LoggedAll-cons :
      (c : LogConfig) (s s₁ s₂ : LogState F R) (r : R) (w : Bool) (rs : List (R × Bool))
      → s.recv_count + length ((r, w) ∷ rs) < 2 ^ 64
      → Logged c s s₁ r
      → LoggedAll c s₁ s₂ rs
      → LoggedAll c s s₂ ((r, w) ∷ rs)
  unfolding Stats.updates
  LoggedAll-cons c s s₁ s₂ r w rs fits one all = record {
    counted = omega (arith, one.counted, all.counted);
    all_rows =
        all.all_rows
        ∙ ap (λ l. rows_all c l (results rs)) one.new_rows
        ∙ rows_all-cons c s.rows (results rs) r;
    all_stats =
        all.all_stats ∙ ap (λ t. Stats.updates f t (map (λ x. view.rtt x.0) rs)) one.new_stats;
  }

  -- After results that arrive in order and are all written, the reader has counted every one, has
  -- written them all in order where there is a log file and none elsewhere, and its round trip
  -- statistics are those of their times in order. It neither fails nor panics on the way. The count
  -- is assumed to stay below 2 ^ 64.
  pub log_task-LoggedAll :
      (c : LogConfig) (s : LogState F R) (rs : List (R × Bool))
      → Rising s.time rs
      → Written rs
      → s.recv_count + length rs < 2 ^ 64
      → Yields (λ s'. LoggedAll c s s' rs) (log_task f view c s rs)
  unfolding log_task
  log_task-LoggedAll c s [] rising written fits = record {
    counted = omega arith;
    all_rows = rows_all-nil c s.rows;
    all_stats = unfold Stats.updates in refl;
  }
  log_task-LoggedAll c s ((r, true) ∷ rs) (h, rising) (w, written) fits =
      Yields-bind (λ s'. Logged c s s' r) (λ s'. LoggedAll c s s' ((r, true) ∷ rs))
        (log_step f view c s (r, true)) _ (log_step_lem c s r h)
        λ s₁ one.
          Yields-map (λ s'. LoggedAll c s₁ s' rs) (λ s'. LoggedAll c s s' ((r, true) ∷ rs)) _
            (log_task-LoggedAll c s₁ rs (rw one.timed rising) written
              (rw one.counted (omega arith)))
            λ s₂ all. LoggedAll-cons c s s₁ s₂ r true rs fits one all
  log_task-LoggedAll c s ((r, false) ∷ rs) rising (w, written) fits = cc
