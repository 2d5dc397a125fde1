-- ===== src/Prelude/Network.antt =====
-- What a network does to packets: it delivers any of those that were sent, in any order, some again and
-- some never.
use niceperf.Prelude.{
  ℕ, zero, suc, ◌≤◌, ◌≡◌, refl, arith, length, ap, ◌∙◌, Option, none, some, List, [], ◌∷◌, map,
  get_elem?, All,
}

-- Which of the packets is delivered, and the time at which it is read. The number of a packet that was
-- not sent delivers nothing.
abbrev pub Route : Type 0
Route = List (ℕ × ℕ)

module _ {A : Type 0} where
  abbrev pub keep : Option A → ℕ → List (A × ℕ) → List (A × ℕ)
  keep none t later = later
  keep (some x) t later = (x, t) ∷ later

  abbrev pub deliver : List A → Route → List (A × ℕ)
  deliver xs [] = []
  deliver xs ((i, t) ∷ route) = keep (get_elem? xs i) t (deliver xs route)

  abbrev IfAny : (A → Type 0) → Option A → Type 0
  IfAny P none = Unit {0}
  IfAny P (some x) = P x

  get_elem?-IfAny : (P : A → Type 0) (xs : List A) (i : ℕ) → All P xs → IfAny P (get_elem? xs i)
  get_elem?-IfAny P [] i h = tt
  get_elem?-IfAny P (x ∷ xs) zero (p, h) = p
  get_elem?-IfAny P (x ∷ xs) (suc i) (p, h) = get_elem?-IfAny P xs i h

  keep-All :
      (P : A → Type 0) (o : Option A) (t : ℕ) (later : List (A × ℕ))
      → IfAny P o
      → All (λ a. P a.0) later
      → All (λ a. P a.0) (keep o t later)
  keep-All P none t later p h = h
  keep-All P (some x) t later p h = (p, h)

  -- What holds of all packets holds of the delivered ones.
  pub deliver-All :
      (P : A → Type 0) (xs : List A) (route : Route)
      → All P xs
      → All (λ a. P a.0) (deliver xs route)
  deliver-All P xs [] h = tt
  deliver-All P xs ((i, t) ∷ route) h =
      keep-All P (get_elem? xs i) t (deliver xs route) (get_elem?-IfAny P xs i h)
        (deliver-All P xs route h)

  keep-times :
      (P : ℕ → Type 0) (o : Option A) (t : ℕ) (later : List (A × ℕ))
      → P t
      → All (λ a. P a.1) later
      → All (λ a. P a.1) (keep o t later)
  keep-times P none t later p h = h
  keep-times P (some x) t later p h = (p, h)

  -- What holds of all times of a route holds of those of the packets that it delivers.
  pub deliver-times :
      (P : ℕ → Type 0) (xs : List A) (route : Route)
      → All (λ a. P a.1) route
      → All (λ a. P a.1) (deliver xs route)
  deliver-times P xs [] h = tt
  deliver-times P xs ((i, t) ∷ route) (p, h) =
      keep-times P (get_elem? xs i) t (deliver xs route) p (deliver-times P xs route h)

  length-keep :
      (o : Option A) (t : ℕ) (later : List (A × ℕ)) → length (keep o t later) ≤ suc (length later)
  length-keep none t later = omega arith
  length-keep (some x) t later = omega arith

  -- No more is delivered than the route says.
  pub length-deliver : (xs : List A) (route : Route) → length (deliver xs route) ≤ length route
  length-deliver xs [] = omega arith
  length-deliver xs ((i, t) ∷ route) =
      omega (arith, length-keep (get_elem? xs i) t (deliver xs route), length-deliver xs route)

  -- The times rise, from `t` on.
  abbrev pub Rising : ℕ → List (A × ℕ) → Type 0
  Rising t [] = Unit {0}
  Rising t (a ∷ rest) = (t ≤ a.1) × Rising (a.1) rest

  Rising-earlier : (t u : ℕ) (xs : List (A × ℕ)) → t ≤ u → Rising u xs → Rising t xs
  Rising-earlier t u [] le h = tt
  Rising-earlier t u (a ∷ xs) le (first, h) = (omega (arith, le, first), h)

  keep-Rising :
      (o : Option A) (t u : ℕ) (later : List (A × ℕ))
      → t ≤ u
      → Rising u later
      → Rising t (keep o u later)
  keep-Rising none t u later le h = Rising-earlier t u later le h
  keep-Rising (some x) t u later le h = (le, h)

module _ {A B : Type 0} (g : A → B) where
  abbrev pub on_first : A × ℕ → B × ℕ
  on_first (a, t) = (g a, t)

  abbrev map? : Option A → Option B
  map? none = none
  map? (some a) = some (g a)

  get_elem?-map : (xs : List A) (i : ℕ) → get_elem? (map g xs) i ≡ map? (get_elem? xs i)
  get_elem?-map [] i = refl
  get_elem?-map (x ∷ xs) zero = refl
  get_elem?-map (x ∷ xs) (suc i) = get_elem?-map xs i

  map-keep :
      (o : Option A) (t : ℕ) (later : List (A × ℕ))
      → keep (map? o) t (map on_first later) ≡ map on_first (keep o t later)
  map-keep none t later = refl
  map-keep (some x) t later = refl

  -- It does not look into them.
  pub deliver-map :
      (xs : List A) (route : Route) → deliver (map g xs) route ≡ map on_first (deliver xs route)
  deliver-map xs [] = refl
  deliver-map xs ((i, t) ∷ route) =
      ap (λ l. keep (get_elem? (map g xs) i) t l) (deliver-map xs route)
      ∙ ap (λ o. keep o t (map on_first (deliver xs route))) (get_elem?-map xs i)
      ∙ map-keep (get_elem? xs i) t (deliver xs route)

-- What is read in the order of time is delivered so.
pub deliver-Rising :
    {A : Type 0} (xs : List A) (t : ℕ) (route : Route)
    → Rising t route
    → Rising t (deliver xs route)
deliver-Rising xs t [] h = tt
deliver-Rising xs t ((i, u) ∷ route) (le, h) =
    keep-Rising (get_elem? xs i) t u (deliver xs route) le (deliver-Rising xs u route h)
