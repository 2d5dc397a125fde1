-- ===== src/Ping/LogTask.antt =====
-- The log reader that each ping client spawns (`while let Some(result) = log_reader.recv().await` in
-- ping/src/icmp.rs, udp.rs and tcp.rs): the three copies differ in the result type and in the line that
-- they print. The results
-- that the channel gives before it closes are a list.
pub mod Counts
pub mod Whole
mod Runs
use niceperf.Prelude.{
  ℕ, ◌+◌, ◌/◌, ◌%◌, ◌^◌, Bool, true, false, List, [], ◌∷◌, ◌++◌, ◌==◌, if◌then◌else◌,
}
use niceperf.Prelude.Outcome.{Outcome, ok, err, panic, ◌>>=◌}
use niceperf.Prelude.Words.{Profile, sub_word}
use niceperf.Common.Statistics.{Float, Statistics}
use niceperf.Common.Statistics as Stats
use niceperf.Ping.Task.{Error, log_failed}

-- What the task reads of a result.
pub record View (F R : Type 0) : Type 0 where
  pub recv_timestamp : R → ℕ
  pub rtt : R → F

-- What it prints: the line of a result, or the two summaries.
pub data Line (F R : Type 0) : Type 0 where
  reply : R → Line F R
  summary : Statistics F → Statistics F → Line F R

pub record LogState (F R : Type 0) : Type 0 where
  pub recv_count : ℕ
  pub time : ℕ
  pub stats : Statistics F
  pub stat_piat : Statistics F
  pub rows : List R
  pub printed : List (Line F R)

-- The environment of a run: the profile, whether there is a log file, and the `log` option.
pub record LogConfig : Type 0 where
  pub profile : Profile
  pub has_logger : Bool
  pub log : Bool

module _ {F R : Type 0} (f : Float F) (view : View F R) where
  unfoldable pub start : LogState F R
  start = record {
    recv_count = 0;
    time = 0;
    stats = Stats.new f;
    stat_piat = Stats.new f;
    rows = [];
    printed = [];
  }

  -- `stat_piat`: the whole milliseconds between two arrivals.
  unfoldable pub record_arrival : Profile → LogState F R → R → Outcome Error (LogState F R)
  record_arrival p s r =
      let arrived = view.recv_timestamp r in
      if s.recv_count == 0 then ok (record s { time = arrived }) else do
        diff ← sub_word p 128 arrived s.time
        ok (record s {
          stat_piat = Stats.update f s.stat_piat (f.of_ℕ (diff / 1000000));
          time = arrived;
        })

  abbrev summarise : LogState F R → LogState F R
  summarise s =
      if s.recv_count % 100 == 0
      then record s { printed = s.printed ++ summary s.stats s.stat_piat ∷ [] }
      else s

  -- The log file, the line of the result, or the summary. `written` is what the file answers.
  unfoldable pub output : LogConfig → Bool → LogState F R → R → Outcome Error (LogState F R)
  output c written s r =
      if c.has_logger
      then (if written
          then ok (summarise (record s { rows = s.rows ++ r ∷ [] }))
          else err log_failed)
      else if c.log
      then ok (record s { printed = s.printed ++ reply r ∷ [] })
      else ok (summarise s)

  unfoldable pub log_step : LogConfig → LogState F R → R × Bool → Outcome Error (LogState F R)
  log_step c s (r, written) = do
    s₁ ← record_arrival c.profile s r
    s₂ ← output c written (record s₁ { stats = Stats.update f s₁.stats (view.rtt r) }) r
    ok (record s₂ { recv_count = (s₂.recv_count + 1) % 2 ^ 64 })

  -- The loop, over the results that the channel gives.
  unfoldable pub log_task :
      LogConfig → LogState F R → List (R × Bool) → Outcome Error (LogState F R)
  log_task c s [] = ok s
  log_task c s (r ∷ rs) = do s' ← log_step c s r; log_task c s' rs
