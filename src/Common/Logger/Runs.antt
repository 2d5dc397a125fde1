-- ===== src/Common/Logger/Runs.antt =====
-- The log of a struct with two fields, and two rows of it.
use niceperf.Prelude.{ℕ, ◌≡◌, refl, none, List, [], ◌∷◌, ◌++◌, Bytes}
use niceperf.Prelude.Outcome.{Outcome, ok, Yields, ◌>>=◌}
use niceperf.Common.Logger.{
  Error, named, LoggingImpl, impl_logging, write_format, newline, new, log_all,
}
use niceperf.Common.Logger.Columns.{columns, impl_logging-columns}
use niceperf.Common.Logger.Rows.{Holds, text_of, writes, new-log_all}

-- `rtt` and `seq`
abbrev rtt : Bytes
rtt = b'r' ∷ b't' ∷ b't' ∷ []

abbrev seq : Bytes
seq = b's' ∷ b'e' ∷ b'q' ∷ []

impl_logging-columns_example :
    (impl : LoggingImpl) × (◌≡◌ {A = Outcome Error LoggingImpl}
      (impl_logging (named (rtt ∷ seq ∷ [])))
      (ok impl))
    × ((line : Bytes) × (impl.header ≡ line ++ newline) × (columns line ≡ rtt ∷ seq ∷ []))
    × ((line : Bytes) × (write_format impl.format ((b'1' ∷ b'2' ∷ []) ∷ (b'3' ∷ []) ∷ [])
          ≡ line ++ newline)
        × (columns line ≡ (b'1' ∷ b'2' ∷ []) ∷ (b'3' ∷ []) ∷ []))
impl_logging-columns_example =
    impl_logging-columns {E = Error} rtt (seq ∷ []) (b'1' ∷ b'2' ∷ []) ((b'3' ∷ []) ∷ []) refl
      ((refl, (refl, (refl, tt))), ((refl, (refl, (refl, tt))), tt))
      ((refl, (refl, tt)), ((refl, tt), tt))

abbrev two_columns : LoggingImpl
two_columns = record {
  header = rtt ++ b',' ∷ seq ++ newline;
  format = b'{' ∷ b'}' ∷ b',' ∷ b'{' ∷ b'}' ∷ newline;
}

abbrev rows : List (List Bytes × ℕ)
rows = ((b'1' ∷ b'2' ∷ []) ∷ (b'3' ∷ []) ∷ [], 0) ∷ ((b'4' ∷ []) ∷ (b'5' ∷ []) ∷ [], 7) ∷ []

new-log_all_example :
    Yields
      (Holds two_columns.header (two_columns.header ++ text_of two_columns rows))
      (do l ← new two_columns none none; log_all two_columns l (writes rows))
new-log_all_example = new-log_all two_columns rows
