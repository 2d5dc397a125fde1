-- ===== src/Common/Logger/Rows.antt =====
-- What the log file holds.
use mathlib.Core.Path.{subst}
use niceperf.Prelude.{
  ℕ, zero, suc, ◌≡◌, refl, sym, ap, ◌∙◌, none, List, [], ◌∷◌, ◌++◌, Bytes, take, drop, append-nil,
  append_assoc,
}
use niceperf.Prelude.Outcome.{◌>>=◌, Yields, Yields-bind, Yields-map}
use niceperf.Common.Logger.{LoggingImpl, write_format, Logger, new, Write, passed_on, log, log_all}

take-append-drop : {A : Type 0} (n : ℕ) (xs : List A) → take n xs ++ drop n xs ≡ xs
take-append-drop zero xs = refl
take-append-drop (suc n) [] = refl
take-append-drop (suc n) (x ∷ xs) = ap (λ l. x ∷ l) (take-append-drop n xs)

-- The rows, one after the other.
abbrev pub text_of : LoggingImpl → List (List Bytes × ℕ) → Bytes
text_of impl [] = []
text_of impl ((values, n) ∷ rows) = write_format impl.format values ++ text_of impl rows

abbrev pub writes : List (List Bytes × ℕ) → List (List Bytes × Write)
writes [] = []
writes ((values, n) ∷ rows) = (values, passed_on n) ∷ writes rows

-- The file begins with the header, and all that was logged is in the file or still in the buffer, in
-- order.
abbrev pub Holds : Bytes → Bytes → Logger → Type 0
Holds header text l = ((rest : Bytes) × (l.file ≡ header ++ rest)) × (l.file ++ l.buffer ≡ text)

log-Holds :
    (impl : LoggingImpl) (l : Logger) (values : List Bytes) (n : ℕ) (text : Bytes)
    → Holds impl.header text l
    → Yields
        (Holds impl.header (text ++ write_format impl.format values))
        (log impl l values (passed_on n))
unfolding log
log-Holds impl l values n text ((rest, begins), h) =
    let bytes = l.buffer ++ write_format impl.format values in
    (
      (
        rest ++ take n bytes,
        ap (λ t. t ++ take n bytes) begins ∙ append_assoc impl.header rest (take n bytes),
      ),
      append_assoc l.file (take n bytes) (drop n bytes)
          ∙ ap (λ t. l.file ++ t) (take-append-drop n bytes)
          ∙ sym (append_assoc l.file l.buffer (write_format impl.format values))
          ∙ ap (λ t. t ++ write_format impl.format values) h,
    )

log_all_step :
    (impl : LoggingImpl) (l : Logger) (values : List Bytes) (n : ℕ) (rows : List (List Bytes × ℕ))
    (P : Logger → Type 0)
    → Yields P (do l' ← log impl l values (passed_on n); log_all impl l' (writes rows))
    → Yields P (log_all impl l (writes ((values, n) ∷ rows)))
unfolding log_all
log_all_step impl l values n rows P h = h

log_all-Holds :
    (impl : LoggingImpl) (l : Logger) (rows : List (List Bytes × ℕ)) (text : Bytes)
    → Holds impl.header text l
    → Yields (Holds impl.header (text ++ text_of impl rows)) (log_all impl l (writes rows))
log_all-Holds impl l [] text h = unfold log_all in (h.0, h.1 ∙ sym (append-nil text))
log_all-Holds impl l ((values, n) ∷ rows) text h =
    let rest =
      λ (l' : Logger) (h' : Holds impl.header (text ++ write_format impl.format values) l').
        log_all-Holds impl l' rows (text ++ write_format impl.format values) h' in
    log_all_step impl l values n rows _ (
      Yields-bind (Holds impl.header (text ++ write_format impl.format values)) _
        (log impl l values (passed_on n)) _ (log-Holds impl l values n text h)
        (λ l' h'.
          subst (λ t. Yields (Holds impl.header t) (log_all impl l' (writes rows)))
            (append_assoc text (write_format impl.format values) (text_of impl rows)) (rest l' h')))

-- A new log file begins with the header, which is in the file itself, and after any rows whose writes
-- succeed the file still begins with it, and the file and the buffer hold the header and exactly those
-- rows, in order, whatever part of them each write has passed on.
pub new-log_all :
    (impl : LoggingImpl) (rows : List (List Bytes × ℕ))
    → Yields
        (Holds impl.header (impl.header ++ text_of impl rows))
        (do l ← new impl none none; log_all impl l (writes rows))
unfolding new
new-log_all impl rows =
    log_all-Holds impl _ rows impl.header
      (([], sym (append-nil impl.header)), append-nil impl.header)

-- Rows that stay in the buffer.
abbrev pub kept : List (List Bytes) → List (List Bytes × Write)
kept [] = []
kept (values ∷ rows) = (values, passed_on 0) ∷ kept rows

log_kept :
    (impl : LoggingImpl) (l : Logger) (values : List Bytes) (rows : List (List Bytes))
    → ((l' : Logger)
        → l'.file ≡ l.file
        → Yields (λ q. q.file ≡ l'.file) (log_all impl l' (kept rows)))
    → l.file ++ [] ≡ l.file
    → Yields (λ q. q.file ≡ l.file) (log_all impl l (kept (values ∷ rows)))
unfolding log_all log
log_kept impl l values rows rest same =
    let l' : Logger = record {
      file = l.file ++ [];
      buffer = l.buffer ++ write_format impl.format values;
    } in
    Yields-map (λ q. q.file ≡ l'.file) (λ q. q.file ≡ l.file) (log_all impl l' (kept rows))
      (rest l' same) (λ q e. e ∙ same)

log_all-file :
    (impl : LoggingImpl) (l : Logger) (rows : List (List Bytes))
    → Yields (λ l'. l'.file ≡ l.file) (log_all impl l (kept rows))
log_all-file impl l [] = unfold log_all in refl
log_all-file impl l (values ∷ rows) =
    let file_same : l.file ++ [] ≡ l.file = append-nil l.file in
    log_kept impl l values rows (λ l' e. log_all-file impl l' rows) file_same

-- Nothing that the logger does passes the buffer on: as long as its rows fit the buffer, the file that
-- is left holds the header only, whatever was logged.
pub log_all-kept :
    (impl : LoggingImpl) (rows : List (List Bytes))
    → Yields (λ l. l.file ≡ impl.header) (do l ← new impl none none; log_all impl l (kept rows))
unfolding new
log_all-kept impl rows = log_all-file impl _ rows
