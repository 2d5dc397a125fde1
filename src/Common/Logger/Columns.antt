-- ===== src/Common/Logger/Columns.antt =====
-- A row has the columns of the header.
use niceperf.Prelude.{
  ◌≡◌, refl, sym, ap, ◌∙◌, false, List, [], ◌∷◌, ◌++◌, Bytes, map, arith, All, length, ◌==◌,
  if◌then◌else◌, append-nil, append_assoc,
}
use niceperf.Prelude.Outcome.{Outcome, ok}
use niceperf.Common.Logger.{
  named, LoggingImpl, join, impl_logging, write_format, placeholder, newline,
}

-- A text cut at each comma.
abbrev pub split_at_commas : Bytes → Bytes → List Bytes
split_at_commas word [] = word ∷ []
split_at_commas word (c ∷ cs) =
    let next = word ∷ split_at_commas [] cs in
    let longer = split_at_commas (word ++ c ∷ []) cs in if c == b',' then next else longer

abbrev pub columns : Bytes → List Bytes
columns = split_at_commas []

abbrev pub Commaless : Bytes → Type 0
Commaless = All (λ c. (c == b',') ≡ false)

-- As many values as names, and at least one.
abbrev pub SameLength : List Bytes → List Bytes → Type 0
SameLength [] values = ⊥
SameLength (n ∷ []) values = length values ≡ 1
SameLength (n ∷ m ∷ names) [] = ⊥
SameLength (n ∷ m ∷ names) (v ∷ values) = SameLength (m ∷ names) values

SameLength-nil : (m : Bytes) (names : List Bytes) → SameLength (m ∷ names) [] → ⊥
SameLength-nil m [] h = omega arith
SameLength-nil m (n ∷ names) h = h

split-word :
    (word xs rest : Bytes)
    → Commaless xs
    → split_at_commas word (xs ++ rest) ≡ split_at_commas (word ++ xs) rest
split-word word [] rest h = ap (λ w. split_at_commas w rest) (sym (append-nil word))
split-word word (x ∷ xs) rest (h, hs) =
    rw h (split-word (word ++ x ∷ []) xs rest hs)
    ∙ ap (λ w. split_at_commas w rest) (append_assoc word (x ∷ []) xs)

columns-join :
    (x : Bytes) (xs : List Bytes) → All Commaless (x ∷ xs) → columns (join (x ∷ xs)) ≡ x ∷ xs
unfolding join
columns-join x [] (h, hs) = ap columns (sym (append-nil x)) ∙ split-word [] x [] h
columns-join x (y ∷ ys) (h, hs) =
    split-word [] x (b',' ∷ join (y ∷ ys)) h ∙ ap (λ l. x ∷ l) (columns-join y ys hs)

write-comma :
    (t : Bytes) (values : List Bytes)
    → write_format (b',' ∷ t) values ≡ b',' ∷ write_format t values
unfolding write_format
write-comma [] values = refl
write-comma (d ∷ t) [] = refl
write-comma (d ∷ t) (v ∷ values) = refl

-- The generated format, filled in with as many values as there are fields, is the values with commas
-- between them.
write_format-join :
    (names values : List Bytes)
    → SameLength names values
    → write_format (join (map (λ (name : Bytes). placeholder) names) ++ newline) values
      ≡ join values ++ newline
unfolding join write_format
write_format-join [] values h = absurd h
write_format-join (n ∷ []) [] h = absurd (omega arith)
write_format-join (n ∷ []) (v ∷ []) h = refl
write_format-join (n ∷ []) (v ∷ w ∷ values) h = absurd (omega arith)
write_format-join (n ∷ m ∷ names) [] h = absurd h
write_format-join (n ∷ m ∷ names) (v ∷ []) h = absurd (SameLength-nil m names h)
write_format-join (n ∷ m ∷ names) (v ∷ w ∷ values) h =
    ap (λ t. v ++ t)
      (write-comma (join (map (λ (name : Bytes). placeholder) (m ∷ names)) ++ newline) (w ∷ values)
        ∙ ap (λ t. b',' ∷ t) (write_format-join (m ∷ names) (w ∷ values) h))
    ∙ sym (append_assoc v (b',' ∷ join (w ∷ values)) newline)

-- What is generated for a struct: the header has its field names as columns, and a row has the values, in
-- order, each on a line. There is at least one field, as many values as fields, and no comma in either.
pub impl_logging-columns :
    {E : Type 0} (n : Bytes) (names : List Bytes) (v : Bytes) (values : List Bytes)
    → SameLength (n ∷ names) (v ∷ values)
    → All Commaless (n ∷ names)
    → All Commaless (v ∷ values)
    → (impl : LoggingImpl) × (◌≡◌ {A = Outcome E LoggingImpl}
        (impl_logging (named (n ∷ names)))
        (ok impl))
      × ((line : Bytes) × (impl.header ≡ line ++ newline) × (columns line ≡ n ∷ names))
      × ((line : Bytes) × (write_format impl.format (v ∷ values) ≡ line ++ newline)
          × (columns line ≡ v ∷ values))
unfolding impl_logging
impl_logging-columns n names v values same plain plain' = (
  _,
  refl,
  (join (n ∷ names), refl, columns-join n names plain),
  (
    join (v ∷ values),
    write_format-join (n ∷ names) (v ∷ values) same,
    columns-join v values plain',
  ),
)
