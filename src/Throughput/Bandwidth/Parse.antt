-- ===== src/Throughput/Bandwidth/Parse.antt =====
-- What `Bandwidth::from_str` accepts and which value it gives.
use niceperf.Prelude.{
  append_assoc, Option-cases, ℕ, ◌*◌, ◌%◌, ◌^◌, ◌<◌, ◌≡◌, ◌≢◌, refl, sym, ap, ◌∙◌, Bool, true,
  false, List, [], ◌∷◌, ◌++◌, arith, last?-append, ltb, ltb→lt, ◌==◌, ◌||◌, some, if◌then◌else◌,
  last?, All, append-nil, Bool-cases, inl, inr,
}
use mathlib.Core.List.{cons-ne-nil}
use niceperf.Prelude.Outcome.{Outcome, ok, err, panic, ◌>>=◌}
use niceperf.Prelude.Words.{Profile, debug, release, mul_word}
use niceperf.Prelude.Digits.{pos_overflow, is_digit, IsDigit, parse_u64, value, parse_u64_lem}
use niceperf.Throughput.Bandwidth.{
  Bandwidth, ParseError, parse_int, anyhow, into, take_digits, to_ascii_lowercase, parse_num, scale,
  from_str,
}

-- The documented units, in either case.
pub data SiUnit : Type 0 where
  one kilo mega giga : SiUnit

pub data Case : Type 0 where
  lower upper : Case

abbrev pub letters : SiUnit → Case → List ℕ
letters one c = []
letters kilo lower = b'k' ∷ []
letters kilo upper = b'K' ∷ []
letters mega lower = b'm' ∷ []
letters mega upper = b'M' ∷ []
letters giga lower = b'g' ∷ []
letters giga upper = b'G' ∷ []

abbrev pub factor : SiUnit → ℕ
factor one = 1
factor kilo = 1000
factor mega = 1000000
factor giga = 1000000000

-- The bandwidth with the exact value `n`, or what the profile does where that is no u64.
abbrev pub exact : Profile → ℕ → Outcome ParseError Bandwidth
exact p n =
    if ltb n (2 ^ 64)
    then ok (record { num = n })
    else (elim p [ debug ↦ panic | release ↦ ok (record { num = n % 2 ^ 64 }) ])

take_digits-All : (ds : List ℕ) → All IsDigit ds → take_digits ds ≡ ds
unfolding take_digits
take_digits-All [] h = refl
take_digits-All (c ∷ ds) (d, h) = rw d (ap (λ t. c ∷ t) (take_digits-All ds h))

take_digits-append :
    (ds : List ℕ) (c : ℕ) (rest : List ℕ)
    → All IsDigit ds
    → is_digit c ≡ false
    → take_digits (ds ++ c ∷ rest) ≡ ds
unfolding take_digits
take_digits-append [] c rest h n = rw n
take_digits-append (b ∷ ds) c rest (d, h) n =
    rw d (ap (λ t. b ∷ t) (take_digits-append ds c rest h n))

-- The factor that the last character of a text stands for; any other character than a unit is 1.
abbrev pub factor_of : ℕ → ℕ
factor_of c =
    if c == b'k' || c == b'K'
    then 1000
    else if c == b'm' || c == b'M'
    then 1000000
    else if c == b'g' || c == b'G'
    then 1000000000
    else 1

abbrev wrap : ℕ → Outcome ParseError Bandwidth
wrap n = ok (record { num = n })

mul_word-exact : (p : Profile) (n k : ℕ) → (mul_word p 64 n k >>= wrap) ≡ exact p (n * k)
unfolding mul_word
mul_word-exact debug n k = ground arith
mul_word-exact release n k = ground arith

scale-exact :
    (p : Profile) (n c : ℕ)
    → n < 2 ^ 64
    → (scale p n (to_ascii_lowercase c) >>= wrap) ≡ exact p (n * factor_of c)
unfolding scale to_ascii_lowercase
scale-exact p n c h =
    ground
      (arith, mul_word-exact p n 1000, mul_word-exact p n 1000000, mul_word-exact p n 1000000000)

take_digits-IsDigit : (s : List ℕ) → All IsDigit (take_digits s)
unfolding take_digits
take_digits-IsDigit [] = tt
take_digits-IsDigit (c ∷ s) = ground (arith, take_digits-IsDigit s)

parse_num_lem :
    (s ds : List ℕ)
    → take_digits s ≡ ds
    → ds ≢ []
    → All IsDigit ds
    → parse_num s
      ≡ (if ltb (value ds) (2 ^ 64) then ok (value ds) else err (parse_int pos_overflow))
unfolding parse_num
parse_num_lem s ds front ne h =
    ap anyhow (ap parse_u64 front ∙ parse_u64_lem ds ne h) ∙ ground arith

-- The whole function: the digits in front, times what the last character stands for.
from_str_lem :
    (p : Profile) (s ds : List ℕ) (c : ℕ)
    → take_digits s ≡ ds
    → ds ≢ []
    → All IsDigit ds
    → last? s ≡ some c
    → from_str p s ≡ (
        if ltb (value ds) (2 ^ 64)
        then exact p (value ds * factor_of c)
        else err (parse_int pos_overflow))
unfolding from_str
from_str_lem p s ds c front ne h last = elim (Bool-cases (ltb (value ds) (2 ^ 64))) [
  | inl fits ↦
      rw (parse_num_lem s ds front ne h, fits, last)
        (scale-exact p (value ds) c (ltb→lt (value ds) (2 ^ 64) fits))
  | inr wide ↦ rw (parse_num_lem s ds front ne h, wide)
]

last?-digits : (ds : List ℕ) → ds ≢ [] → All IsDigit ds → (c : ℕ) × (last? ds ≡ some c) × IsDigit c
last?-digits [] ne h = absurd (ne refl)
last?-digits (c ∷ []) ne h = (c, refl, h.0)
last?-digits (c ∷ d ∷ ds) ne h = last?-digits (d ∷ ds) (cons-ne-nil d ds) h.1

factor_of-digit : (c : ℕ) → IsDigit c → factor_of c ≡ 1
factor_of-digit c h = ground arith

with_letter :
    (p : Profile) (ds : List ℕ) (c : ℕ)
    → ds ≢ []
    → All IsDigit ds
    → is_digit c ≡ false
    → from_str p (ds ++ c ∷ []) ≡ (
        if ltb (value ds) (2 ^ 64)
        then exact p (value ds * factor_of c)
        else err (parse_int pos_overflow))
with_letter p ds c ne h n =
    from_str_lem p (ds ++ c ∷ []) ds c (take_digits-append ds c [] h n) ne h (last?-append ds c)

-- A documented text: digits, then a unit letter in either case or none, is read as the digits' value
-- times the unit. Where that value is no u64 the parse fails, or the product panics in the debug
-- profile and wraps in the release profile.
pub from_str-letters :
    (p : Profile) (ds : List ℕ) (u : SiUnit) (k : Case)
    → ds ≢ []
    → All IsDigit ds
    → from_str p (ds ++ letters u k) ≡ (
        if ltb (value ds) (2 ^ 64)
        then exact p (value ds * factor u)
        else err (parse_int pos_overflow))
from_str-letters p ds one k ne h =
    let (c, last, digit) = last?-digits ds ne h in
    rw (append-nil, from_str_lem p ds ds c (take_digits-All ds h) ne h last)
      (ground (arith, factor_of-digit c digit))
from_str-letters p ds kilo lower ne h = with_letter p ds b'k' ne h refl
from_str-letters p ds kilo upper ne h = with_letter p ds b'K' ne h refl
from_str-letters p ds mega lower ne h = with_letter p ds b'm' ne h refl
from_str-letters p ds mega upper ne h = with_letter p ds b'M' ne h refl
from_str-letters p ds giga lower ne h = with_letter p ds b'g' ne h refl
from_str-letters p ds giga upper ne h = with_letter p ds b'G' ne h refl

take_digits-prefix : (s : List ℕ) → (rest : List ℕ) × (s ≡ take_digits s ++ rest)
unfolding take_digits
take_digits-prefix [] = ([], refl)
take_digits-prefix (c ∷ s) = elim (Bool-cases (is_digit c)) [
  | inl d ↦ let (rest, e) = take_digits-prefix s in (rest, rw d (ap (λ t. c ∷ t) e))
  | inr n ↦ (c ∷ s, rw n)
]

from_str_needs_digit :
    (p : Profile) (s : List ℕ) (b : Bandwidth) → from_str p s ≡ ok b → take_digits s ≢ []
unfolding from_str parse_num parse_u64
from_str_needs_digit p s b e none_there = ground (arith, ap parse_u64 none_there)

from_str_needs_last :
    (p : Profile) (s : List ℕ) (b : Bandwidth) → from_str p s ≡ ok b → (c : ℕ) × (last? s ≡ some c)
unfolding from_str
from_str_needs_last p s b e = elim (Option-cases (last? s)) [
  | inl nothing ↦ ground arith
  | inr found ↦ found
]

exact-debug : (n : ℕ) (b : Bandwidth) → exact debug n ≡ ok b → (b.num ≡ n) × (n < 2 ^ 64)
exact-debug n b e = ground arith

if-ok :
    (t : Bool) (m : Outcome ParseError Bandwidth) (e : ParseError) (b : Bandwidth)
    → (if t then m else err e) ≡ ok b
    → m ≡ ok b
if-ok true m e b h = h
if-ok false m e b h = cc

-- A parse that succeeds in the debug profile has a nonempty run of digits in front and gives exactly
-- their value times the factor of the text's last character, which is a u64: nothing wrapped.
pub from_str_sound :
    (s : List ℕ) (b : Bandwidth)
    → from_str debug s ≡ ok b
    → (ds : List ℕ) × (rest : List ℕ) × (c : ℕ) × (s ≡ ds ++ rest)
      × (ds ≢ [])
      × All IsDigit ds
      × (last? s ≡ some c)
      × (into b ≡ value ds * factor_of c)
      × (into b < 2 ^ 64)
unfolding into
from_str_sound s b e =
    let ds = take_digits s in
    let ne = from_str_needs_digit debug s b e in
    let all = take_digits-IsDigit s in
    let (c, last) = from_str_needs_last debug s b e in
    let (rest, split) = take_digits-prefix s in
    let read = sym (from_str_lem debug s ds c refl ne all last) ∙ e in
    let sound = exact-debug (value ds * factor_of c) b (if-ok _ _ _ _ read) in
    (ds, rest, c, split, ne, all, last, sound.0, rw sound.0 sound.1)

last?-append_cons : (xs ys : List ℕ) (y c : ℕ) → last? (xs ++ y ∷ (ys ++ c ∷ [])) ≡ some c
last?-append_cons xs ys y c =
    ap last? (sym (append_assoc xs (y ∷ ys) (c ∷ []))) ∙ last?-append (xs ++ y ∷ ys) c

-- Whatever stands between the digits and the last character is passed over.
pub from_str_skips :
    (p : Profile) (ds junk : List ℕ) (x c : ℕ)
    → ds ≢ []
    → All IsDigit ds
    → is_digit x ≡ false
    → is_digit c ≡ false
    → from_str p (ds ++ x ∷ (junk ++ c ∷ [])) ≡ from_str p (ds ++ c ∷ [])
from_str_skips p ds junk x c ne h nx nc =
    from_str_lem p (ds ++ x ∷ (junk ++ c ∷ [])) ds c (take_digits-append ds x (junk ++ c ∷ []) h nx)
      ne h (last?-append_cons ds junk x c)
    ∙ sym (with_letter p ds c ne h nc)
