-- ===== src/Groups/Attempts/Outcomes.antt =====
-- The outcome of several alternate attempts, against a description of it.
use sandbox_tester.Common.{
  ℕ, zero, suc, ◌≤◌, ◌≡◌, refl, ap, sym, ◌∙◌, Bool, true, false, ◌&&◌, ◌||◌, List, [], ◌∷◌, ◌==◌,
  number_eq, arith, if◌then◌else◌, Bool-cases, inl, inr,
}
use sandbox_tester.Engine.Models.{
  Outcome, allowed, denied, not_applicable, AlternateAttemptResult, AlternateInvocationResult,
}
use sandbox_tester.Groups.Attempts.{
  count_outcomes, is_allowed, is_not_applicable, length, summarize_attempts, succeeded_summary,
  run_program_alternate_attempts, perform_all, summary_of,
}

abbrev pub any_of : (Outcome → Bool) → List AlternateAttemptResult → Bool
any_of test [] = false
any_of test (r ∷ rs) = test r.outcome || any_of test rs

abbrev pub all_of : (Outcome → Bool) → List AlternateAttemptResult → Bool
all_of test [] = true
all_of test (r ∷ rs) = test r.outcome && all_of test rs

-- One success makes the whole a success; it does not apply if none of the attempts does.
abbrev pub overall : List AlternateAttemptResult → Outcome
overall results =
    if any_of is_allowed results
    then allowed
    else if all_of is_not_applicable results
    then not_applicable
    else denied

count_outcomes-le :
    (test : Outcome → Bool) (rs : List AlternateAttemptResult) → count_outcomes test rs ≤ length rs
unfolding count_outcomes
count_outcomes-le test [] = omega arith
count_outcomes-le test (r ∷ rs) = ground (arith, count_outcomes-le test rs)

count_outcomes-all :
    (test : Outcome → Bool) (rs : List AlternateAttemptResult)
    → (count_outcomes test rs == length rs) ≡ all_of test rs
unfolding count_outcomes
count_outcomes-all test [] = ground arith
count_outcomes-all test (r ∷ rs) =
    ground (arith, count_outcomes-le test rs, count_outcomes-all test rs)

abbrev is_positive : ℕ → Bool
is_positive zero = false
is_positive (suc n) = true

count_outcomes-any :
    (test : Outcome → Bool) (rs : List AlternateAttemptResult)
    → is_positive (count_outcomes test rs) ≡ any_of test rs
unfolding count_outcomes
count_outcomes-any test [] = refl
count_outcomes-any test (r ∷ rs) = elim (Bool-cases (test r.outcome)) [
  | inl e ↦ rw e refl
  | inr e ↦ rw e (count_outcomes-any test rs)
]

summary_of_outcome :
    (n : ℕ) (b : Bool) (rs : List AlternateAttemptResult)
    → (summary_of n b rs).outcome
      ≡ (if is_positive n then allowed else if b then not_applicable else denied)
summary_of_outcome (suc n) b rs = refl
summary_of_outcome zero true rs = refl
summary_of_outcome zero false rs = refl

summary_of_attempts :
    (n : ℕ) (b : Bool) (rs : List AlternateAttemptResult) → (summary_of n b rs).attempts ≡ rs
summary_of_attempts (suc n) b rs = refl
summary_of_attempts zero true rs = refl
summary_of_attempts zero false rs = refl

pub summarize_attempts_lem :
    (rs : List AlternateAttemptResult)
    → ((summarize_attempts rs).outcome ≡ overall rs) × ((summarize_attempts rs).attempts ≡ rs)
unfolding summarize_attempts
summarize_attempts_lem rs = (
  summary_of_outcome _ _ rs
      ∙ rw (count_outcomes-any is_allowed rs, count_outcomes-all is_not_applicable rs) refl,
  summary_of_attempts _ _ rs,
)

-- What the summary of a success says.
abbrev pub IsCounted : AlternateInvocationResult → ℕ → Type 0
IsCounted result total =
    let count = count_outcomes is_allowed result.attempts in
    (result.summary ≡ succeeded_summary count total) × (1 ≤ count) × (count ≤ total)

summary_of-IsCounted :
    (n : ℕ) (b : Bool) (rs : List AlternateAttemptResult)
    → count_outcomes is_allowed rs ≡ n
    → (summary_of n b rs).outcome ≡ allowed
    → IsCounted (summary_of n b rs) (length rs)
summary_of-IsCounted (suc n) b rs h e = (
  ap (λ k. succeeded_summary k (length rs)) (sym h),
  omega (arith, h),
  count_outcomes-le is_allowed rs,
)
summary_of-IsCounted zero true rs h e = cc e
summary_of-IsCounted zero false rs h e = cc e

IsCounted-total :
    (result : AlternateInvocationResult) (n m : ℕ) → n ≡ m → IsCounted result n → IsCounted result m
IsCounted-total result n m e counted = rw e at counted

module _ {World A : Type 0} (perform : A → World → World × AlternateAttemptResult) where
  -- Alternate attempts leave the machine and the results that performing them in turn does, and the
  -- outcome of the whole is `Allowed` if an attempt was, else `N/A` if every attempt was, else `Denied`.
  pub run_program_alternate_attempts_lem :
      (attempts : List A) (w : World)
      → let results = perform_all perform attempts w in
        let run = run_program_alternate_attempts perform attempts w in
        (run.0 ≡ results.0) × (run.1.attempts ≡ results.1) × (run.1.outcome ≡ overall results.1)
  unfolding run_program_alternate_attempts perform_all
  run_program_alternate_attempts_lem [] w = (refl, refl, refl)
  run_program_alternate_attempts_lem (a ∷ attempts) w =
      let (outcome, same) = summarize_attempts_lem (perform_all perform (a ∷ attempts) w).1 in
      (refl, same, outcome)

  length-perform_all :
      (attempts : List A) (w : World) → length (perform_all perform attempts w).1 ≡ length attempts
  unfolding perform_all
  length-perform_all [] w = refl
  length-perform_all (a ∷ attempts) w =
      ap (λ n. suc n) (length-perform_all attempts (perform a w).0)

  -- If the outcome of the whole is `Allowed`, the summary names the number of the allowed attempts, which
  -- is one or more and at most that of the attempts, and it names the number of the attempts.
  pub run_program_alternate_attempts-IsCounted :
      (attempts : List A) (w : World)
      → (run_program_alternate_attempts perform attempts w).1.outcome ≡ allowed
      → IsCounted (run_program_alternate_attempts perform attempts w).1 (length attempts)
  unfolding run_program_alternate_attempts summarize_attempts
  run_program_alternate_attempts-IsCounted [] w h = cc h
  run_program_alternate_attempts-IsCounted (a ∷ attempts) w h =
      let results = (perform_all perform (a ∷ attempts) w).1 in
      IsCounted-total (summarize_attempts results) _ _ (length-perform_all (a ∷ attempts) w)
        (summary_of-IsCounted (count_outcomes is_allowed results) _ results refl h)
