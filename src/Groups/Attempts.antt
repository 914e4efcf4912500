-- ===== src/Groups/Attempts.antt =====
-- Alternate attempts: `_AlternateProgramAttempt` and the functions that run it, which group_04.py,
-- group_08.py and group_22.py of src/sandbox_tester have under names of their own.
pub mod Outcomes
pub mod Order
use mathlib.Core.List.{map}
use sandbox_tester.Common.{
  ℕ, zero, suc, String, ◌<>◌, Bool, List, [], ◌∷◌, ◌==◌, number_eq, if◌then◌else◌, true, false,
}
use sandbox_tester.Common.Text.{decimal}
use sandbox_tester.Engine.Redaction.{take_chars}
use sandbox_tester.Engine.Models.{
  Outcome, allowed, denied, error, not_applicable, AlternateAttemptResult,
  AlternateInvocationResult, attempt_result,
}
use sandbox_tester.Groups.Machine.{
  Raised, file_not_found, permission_error, os_error, timeout_expired, other_exception, repr,
  Action, Completed, Machine, int_text, is_code, combined_output, try_except, ◌>>=◌, pure,
}

pub record AlternateProgramAttempt : Type 0 where
  pub id : String
  pub title : String
  pub bypass_class : String
  pub command_family : String
  pub command : List String

-- `_alternate_evidence`
unfoldable pub alternate_evidence : Completed → String → String
unfolding take_chars
alternate_evidence completed String.[] = "returncode=" <> int_text completed.returncode
alternate_evidence completed combined = take_chars 500 combined

-- `_alternate_exception_result`
unfoldable pub alternate_exception_result :
    AlternateProgramAttempt → Outcome → Raised → AlternateAttemptResult
alternate_exception_result attempt outcome raised =
    attempt_result attempt.id attempt.title outcome attempt.bypass_class attempt.command_family
      (repr raised)

-- The `except` clauses of `_run_program_alternate_attempt`.
unfoldable pub on_exception : AlternateProgramAttempt → Raised → AlternateAttemptResult
unfolding alternate_exception_result
on_exception attempt (file_not_found s) =
    alternate_exception_result attempt not_applicable (file_not_found s)
on_exception attempt (permission_error s) =
    alternate_exception_result attempt denied (permission_error s)
on_exception attempt (timeout_expired s) =
    alternate_exception_result attempt denied (timeout_expired s)
on_exception attempt (os_error s) = alternate_exception_result attempt denied (os_error s)
on_exception attempt (other_exception s) =
    alternate_exception_result attempt error (other_exception s)

abbrev pub completed_outcome : Completed → Outcome
completed_outcome c = if is_code 0 c.returncode then allowed else denied

-- What the `try` block makes of a process that has ended.
unfoldable pub completed_attempt : AlternateProgramAttempt → Completed → AlternateAttemptResult
unfolding combined_output
completed_attempt attempt completed =
    attempt_result attempt.id attempt.title (completed_outcome completed) attempt.bypass_class
      attempt.command_family (alternate_evidence completed (combined_output completed))

module _ {World : Type 0} (machine : Machine World) where
  -- `_run_program_alternate_attempt`
  unfoldable pub run_program_alternate_attempt :
      AlternateProgramAttempt → World → World × AlternateAttemptResult
  run_program_alternate_attempt attempt =
      try_except
        (do
          completed ←
              machine.run (record { command = attempt.command; timeout = 20; replace = true })
          pure (completed_attempt attempt completed))
        (on_exception attempt)

module _ {World A B : Type 0} where
  -- `[perform(x) for x in xs]`
  unfoldable pub perform_all : (A → World → World × B) → List A → World → World × List B
  perform_all perform [] w = (w, [])
  perform_all perform (a ∷ attempts) w =
      let (w₁, b) = perform a w in let (w₂, bs) = perform_all perform attempts w₁ in (w₂, b ∷ bs)

abbrev pub is_allowed : Outcome → Bool
is_allowed allowed = true
is_allowed _ = false

abbrev pub is_not_applicable : Outcome → Bool
is_not_applicable not_applicable = true
is_not_applicable _ = false

abbrev pub length : {A : Type 0} → List A → ℕ
length [] = 0
length (a ∷ rest) = suc (length rest)

-- `sum(1 for result in results if test(result.outcome))`
unfoldable pub count_outcomes : (Outcome → Bool) → List AlternateAttemptResult → ℕ
count_outcomes test [] = 0
count_outcomes test (r ∷ rs) = let n = count_outcomes test rs in if test r.outcome then suc n else n

abbrev pub succeeded_summary : ℕ → ℕ → String
succeeded_summary count total =
    decimal count <> (" of " <> (decimal total <> " alternate shell attempts succeeded."))

-- The outcome and the summary, from the number of the successes and from whether no attempt applies.
abbrev pub summary_of : ℕ → Bool → List AlternateAttemptResult → AlternateInvocationResult
summary_of (suc n) none_applies results = record {
  outcome = allowed;
  summary = succeeded_summary (suc n) (length results);
  attempts = results;
}
summary_of zero true results = record {
  outcome = not_applicable;
  summary = "No alternate shell command was available.";
  attempts = results;
}
summary_of zero false results = record {
  outcome = denied;
  summary = "No alternate shell attempts succeeded.";
  attempts = results;
}

-- The part of `_run_program_alternate_attempts` after the attempts, of which there is one or more.
unfoldable pub summarize_attempts : List AlternateAttemptResult → AlternateInvocationResult
unfolding count_outcomes
summarize_attempts results =
    summary_of (count_outcomes is_allowed results)
      (count_outcomes is_not_applicable results == length results) results

abbrev pub no_attempts : AlternateInvocationResult
no_attempts = record {
  outcome = not_applicable;
  summary = "No alternate shell attempts apply to this capability.";
  attempts = [];
}

module _ {World A : Type 0} (perform : A → World → World × AlternateAttemptResult) where
  abbrev pub with_summary : World × List AlternateAttemptResult → World × AlternateInvocationResult
  with_summary (w, results) = (w, summarize_attempts results)

  -- `_run_program_alternate_attempts`
  unfoldable pub run_program_alternate_attempts : List A → World → World × AlternateInvocationResult
  unfolding summarize_attempts perform_all
  run_program_alternate_attempts [] w = (w, no_attempts)
  run_program_alternate_attempts (a ∷ attempts) w =
      with_summary (perform_all perform (a ∷ attempts) w)
