-- ===== src/Common/Logger.antt =====
-- The CSV log: `Logger` (common/src/lib.rs), and the header and rows that `#[derive(Logging)]` generates
-- (logging-derive/src/lib.rs). Texts are the code points of their characters.
pub mod Columns
pub mod Rows
mod Runs
use niceperf.Prelude.{
  ℕ, zero, suc, ◌+◌, Bool, true, false, Option, none, some, List, [], ◌∷◌, ◌++◌, Bytes, map, take,
  drop, ◌==◌, ◌&&◌, if◌then◌else◌,
}
use niceperf.Prelude.Outcome.{Outcome, ok, err, panic, ◌>>=◌}

pub data Error : Type 0 where
  io : ℕ → Error

-- `syn::DeriveInput`: a struct with named fields, or anything else.
pub data DeriveInput : Type 0 where
  named : List Bytes → DeriveInput
  other : DeriveInput

-- `collect::<Vec<_>>().join(",")`
unfoldable pub join : List Bytes → Bytes
join [] = []
join (x ∷ []) = x
join (x ∷ y ∷ ys) = x ++ b',' ∷ join (y ∷ ys)

abbrev pub placeholder : Bytes
placeholder = b'{' ∷ b'}' ∷ []

abbrev pub newline : Bytes
newline = 10 ∷ []

-- What `impl_logging` generates: the header's text and the format of a row.
pub record LoggingImpl : Type 0 where
  pub header : Bytes
  pub format : Bytes

unfoldable pub impl_logging : {E : Type 0} → DeriveInput → Outcome E LoggingImpl
impl_logging other = panic
impl_logging (named field_names) =
    let log_format = join (map (λ (name : Bytes). placeholder) field_names) in
    let header_format = join field_names in
    ok (record { header = header_format ++ newline; format = log_format ++ newline })

-- `write!(f, format, values…)`: each `{}` of the format becomes the next value.
unfoldable pub write_format : Bytes → List Bytes → Bytes
write_format [] values = []
write_format (c ∷ []) values = c ∷ []
write_format (c ∷ d ∷ cs) [] = c ∷ write_format (d ∷ cs) []
write_format (c ∷ d ∷ cs) (v ∷ values) =
    let kept = c ∷ write_format (d ∷ cs) (v ∷ values) in
    let filled = v ++ write_format cs values in if c == b'{' && d == b'}' then filled else kept

-- `Logger`: what the file holds, and what the `BufWriter` of tokio still keeps.
pub record Logger : Type 0 where
  pub file : Bytes
  pub buffer : Bytes

-- `Logger::new`: the file must not exist yet. `created` and `wrote` are the errors of the calls, if any.
unfoldable pub new : LoggingImpl → Option ℕ → Option ℕ → Outcome Error Logger
new impl (some e) wrote = err (io e)
new impl none (some e) = err (io e)
new impl none none = ok (record { file = impl.header; buffer = [] })

-- What `write_all` of the `BufWriter` does: it fails, or passes on some of what it then has.
pub data Write : Type 0 where
  failed : ℕ → Write
  passed_on : ℕ → Write

-- `log`, of the values of a row.
unfoldable pub log : LoggingImpl → Logger → List Bytes → Write → Outcome Error Logger
log impl l values (failed e) = err (io e)
log impl l values (passed_on n) =
    let bytes = l.buffer ++ write_format impl.format values in
    ok (record { file = l.file ++ take n bytes; buffer = drop n bytes })

-- A series of rows.
unfoldable pub log_all : LoggingImpl → Logger → List (List Bytes × Write) → Outcome Error Logger
log_all impl l [] = ok l
log_all impl l ((values, w) ∷ rows) = do l' ← log impl l values w; log_all impl l' rows
