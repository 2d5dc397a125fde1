-- ===== src/Common/Os/Plan.antt =====
-- What running a plan of calls leaves behind.
use niceperf.Prelude.{
  ℕ, ◌≡◌, refl, ap, sym, ◌∙◌, none, some, List, [], ◌∷◌, ◌++◌, arith, Option-cases, inl, inr,
  append-nil, append_assoc,
}
use niceperf.Prelude.Outcome.{Outcome, ok, err}
use niceperf.Common.Os.{Call, Error, Answer, Trace, pure, report, run_plan, ◌>>◌}

module _ {A : Type 0} (a : A) (answer : Answer) where
  accepted_step :
      (c : Call) (cs : List Call) (t : Trace)
      → answer t c ≡ none
      → (run_plan (c ∷ cs) >> pure a) answer t ≡ (run_plan cs >> pure a) answer (t ++ c ∷ [])
  unfolding run_plan
  accepted_step c cs t h = rw h

  refused_step :
      (c : Call) (cs : List Call) (t : Trace) (n : ℕ)
      → answer t c ≡ some n
      → (run_plan (c ∷ cs) >> pure a) answer t ≡ (err (report c n), t ++ c ∷ [])
  unfolding run_plan
  refused_step c cs t n h = rw h

  -- A plan that ends in its value has made all its calls.
  pub run_plan_ok :
      (cs : List Call) (t t' : Trace) (b : A)
      → (run_plan cs >> pure a) answer t ≡ (ok b, t')
      → (t' ≡ t ++ cs) × (b ≡ a)
  run_plan_ok [] t t' b e = unfold run_plan in rw append-nil (ground arith)
  run_plan_ok (c ∷ cs) t t' b e = elim (Option-cases (answer t c)) [
    | inl fine ↦
        let (tail, same) =
          run_plan_ok cs (t ++ c ∷ []) t' b (sym (accepted_step c cs t fine) ∙ e) in
        (tail ∙ append_assoc t (c ∷ []) cs, same)
    | inr (n, refused) ↦ ground (arith, refused_step c cs t n refused)
  ]

-- Where a plan of `cs` from the trace `t` can end: at its value with every call accepted, or at the
-- first call that the system refuses, with that refusal's error and no later call made.
pub data Ends {A : Type 0} (a : A) (answer : Answer) (t : Trace) (cs : List Call)
    (r : Outcome Error A) (t' : Trace) : Type 0 where
  finished : r ≡ ok a → t' ≡ t ++ cs → Ends a answer t cs r t'
  stopped :
      (done : List Call) (c : Call) (rest : List Call) (n : ℕ)
      → cs ≡ done ++ c ∷ rest
      → answer (t ++ done) c ≡ some n
      → r ≡ err (report c n)
      → t' ≡ t ++ done ++ c ∷ []
      → Ends a answer t cs r t'

abbrev pub EndsAt : {A : Type 0} → A → Answer → Trace → List Call → Outcome Error A × Trace → Type 0
EndsAt a answer t cs (r, t') = Ends a answer t cs r t'

module _ {A : Type 0} (a : A) (answer : Answer) where
  Ends-cons :
      (c : Call) (cs : List Call) (t : Trace) (r : Outcome Error A) (t' : Trace)
      → answer t c ≡ none
      → Ends a answer (t ++ c ∷ []) cs r t'
      → Ends a answer t (c ∷ cs) r t'
  Ends-cons c cs t r t' fine (finished e f) = finished e (f ∙ append_assoc t (c ∷ []) cs)
  Ends-cons c cs t r t' fine (stopped done d rest n split refused e f) =
      stopped (c ∷ done) d rest n (ap (λ l. c ∷ l) split)
        (rw (← append_assoc t (c ∷ []) done) refused) e
        (f ∙ ap (λ l. l ++ d ∷ []) (append_assoc t (c ∷ []) done))

  pub run_plan-Ends :
      (cs : List Call) (t : Trace) → EndsAt a answer t cs ((run_plan cs >> pure a) answer t)
  run_plan-Ends [] t = unfold run_plan in finished refl (sym (append-nil t))
  run_plan-Ends (c ∷ cs) t = elim (Option-cases (answer t c)) [
    | inl fine ↦
        rw (accepted_step a answer c cs t fine)
          (Ends-cons c cs t _ _ fine (run_plan-Ends cs (t ++ c ∷ [])))
    | inr (n, refused) ↦
        rw (refused_step a answer c cs t n refused)
          (stopped [] c cs n refl (rw append-nil refused) refl (rw append-nil))
  ]
