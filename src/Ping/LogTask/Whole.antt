-- ===== src/Ping/LogTask/Whole.antt =====
-- A whole series of results whose rows can be written, from the log reader's start.
use mathlib.Core.List.{map-id}
use niceperf.Prelude.{
  ◌^◌, ◌<◌, ◌≡◌, refl, ap, ◌∙◌, Bool, true, List, [], ◌∷◌, arith, length, map, map-map, length-map,
  if◌then◌else◌,
}
use niceperf.Prelude.Outcome.{Yields, Yields-map}
use niceperf.Common.Statistics.{Float}
use niceperf.Ping.LogTask.{View, LogState, LogConfig, start, log_task}
use niceperf.Ping.LogTask.Counts.{Rising, Written, LoggedAll, log_task-LoggedAll}

module _ {R : Type 0} where
  abbrev pub with_row : R → R × Bool
  with_row r = (r, true)

  abbrev pub all_written : List R → List (R × Bool)
  all_written = map with_row

module _ {F R : Type 0} where
  -- The count and the rows of the log.
  abbrev pub Log : LogConfig → List R → LogState F R → Type 0
  Log c results s =
      (s.recv_count ≡ length results) × (s.rows ≡ (if c.has_logger then results else []))

module _ {F R : Type 0} (f : Float F) (view : View F R) where
  Written-all_written : (results : List R) → Written f view (all_written results)
  Written-all_written [] = tt
  Written-all_written (r ∷ results) = (refl, Written-all_written results)

  pub log_task-Log :
      (c : LogConfig) (results : List R)
      → Rising f view 0 (all_written results)
      → length results < 2 ^ 64
      → Yields (Log c results) (log_task f view c (start f view) (all_written results))
  unfolding start
  log_task-Log c results rising few =
      Yields-map (λ s. LoggedAll f view c (start f view) s (all_written results)) (Log c results) _
        (log_task-LoggedAll f view c (start f view) (all_written results) rising
          (Written-all_written results) (omega (arith, length-map with_row results)))
        (λ s all. (
          omega (arith, all.counted, length-map with_row results),
          all.all_rows
              ∙ ap (λ l. if c.has_logger then l else [])
                  (map-map (λ (r : R × Bool). r.0) with_row results ∙ map-id results),
        ))
