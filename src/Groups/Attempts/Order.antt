-- ===== src/Groups/Attempts/Order.antt =====
-- Each alternate attempt and its result.
use mathlib.Core.Path.{subst}
use sandbox_tester.Common.{◌≡◌, refl, String, List, [], ◌∷◌, true}
use sandbox_tester.Engine.Redaction.{redact_evidence}
use sandbox_tester.Engine.Models.{
  Outcome, denied, error, not_applicable, AlternateAttemptResult, attempt_result,
}
use sandbox_tester.Groups.Machine.{
  Raised, file_not_found, permission_error, os_error, timeout_expired, other_exception, repr, Call,
  Answer, returned, raised, Completed, Machine, combined_output, handled, continue, pure,
}
use sandbox_tester.Groups.Attempts.{
  AlternateProgramAttempt, run_program_alternate_attempt, perform_all, alternate_evidence,
  completed_outcome, on_exception, alternate_exception_result, completed_attempt,
  run_program_alternate_attempts,
}
use sandbox_tester.Groups.Attempts.Outcomes.{run_program_alternate_attempts_lem}

abbrev pub exception_outcome : Raised → Outcome
exception_outcome (file_not_found s) = not_applicable
exception_outcome (permission_error s) = denied
exception_outcome (os_error s) = denied
exception_outcome (timeout_expired s) = denied
exception_outcome (other_exception s) = error

-- What an attempt's result says, whether the process has ended or an exception was raised.
abbrev pub answer_outcome : Answer Completed → Outcome
answer_outcome (returned completed) = completed_outcome completed
answer_outcome (raised r) = exception_outcome r

abbrev pub answer_evidence : Answer Completed → String
answer_evidence (returned completed) = alternate_evidence completed (combined_output completed)
answer_evidence (raised r) = repr r

abbrev pub IsResultOf : AlternateProgramAttempt → Answer Completed → AlternateAttemptResult → Type 0
IsResultOf attempt answer result =
    (◌≡◌ {A = String} result.id attempt.id)
    × (◌≡◌ {A = String} result.title attempt.title)
    × (◌≡◌ {A = String} result.bypass_class attempt.bypass_class)
    × (◌≡◌ {A = String} result.command_family attempt.command_family)
    × (result.outcome ≡ answer_outcome answer)
    × (result.evidence ≡ redact_evidence (answer_evidence answer))

pub exception-IsResultOf :
    (attempt : AlternateProgramAttempt) (r : Raised)
    → IsResultOf attempt (raised r) (on_exception attempt r)
unfolding on_exception alternate_exception_result attempt_result
exception-IsResultOf attempt (file_not_found s) = (refl, refl, refl, refl, refl, refl)
exception-IsResultOf attempt (permission_error s) = (refl, refl, refl, refl, refl, refl)
exception-IsResultOf attempt (os_error s) = (refl, refl, refl, refl, refl, refl)
exception-IsResultOf attempt (timeout_expired s) = (refl, refl, refl, refl, refl, refl)
exception-IsResultOf attempt (other_exception s) = (refl, refl, refl, refl, refl, refl)

module _ {World : Type 0} (machine : Machine World) where
  abbrev pub call_of : AlternateProgramAttempt → Call
  call_of attempt = record { command = attempt.command; timeout = 20; replace = true }

  -- The attempts are run one after another, each on the machine that the one before left.
  abbrev pub AreResults :
      List AlternateProgramAttempt → World → World → List AlternateAttemptResult → Type 0
  AreResults [] w w' [] = w' ≡ w
  AreResults [] w w' (r ∷ rs) = ⊥
  AreResults (a ∷ attempts) w w' [] = ⊥
  AreResults (a ∷ attempts) w w' (r ∷ rs) =
      let run = machine.run (call_of a) w in IsResultOf a run.1 r × AreResults attempts run.0 w' rs

  handled-IsResultOf :
      (attempt : AlternateProgramAttempt) (run : World × Answer Completed)
      → let result =
          handled
            (continue run (λ completed. pure (completed_attempt attempt completed)))
            (on_exception attempt) in
        (result.0 ≡ run.0) × IsResultOf attempt run.1 result.1
  unfolding completed_attempt attempt_result
  handled-IsResultOf attempt (w, returned completed) = (refl, (refl, refl, refl, refl, refl, refl))
  handled-IsResultOf attempt (w, raised r) = (refl, exception-IsResultOf attempt r)

  pub run_program_alternate_attempt_lem :
      (attempt : AlternateProgramAttempt) (w : World)
      → let run = machine.run (call_of attempt) w in
        let result = run_program_alternate_attempt machine attempt w in
        (result.0 ≡ run.0) × IsResultOf attempt run.1 result.1
  unfolding run_program_alternate_attempt
  run_program_alternate_attempt_lem attempt w =
      handled-IsResultOf attempt (machine.run (call_of attempt) w)

  perform_all-AreResults :
      (attempts : List AlternateProgramAttempt) (w : World)
      → let run = perform_all (run_program_alternate_attempt machine) attempts w in
        AreResults attempts w run.0 run.1
  unfolding perform_all
  perform_all-AreResults [] w = refl
  perform_all-AreResults (a ∷ attempts) w =
      let (next, result) = run_program_alternate_attempt_lem a w in
      let rest =
        perform_all (run_program_alternate_attempt machine) attempts
          (run_program_alternate_attempt machine a w).0 in
      (
        result,
        subst (λ v. AreResults attempts v rest.0 rest.1) next (perform_all-AreResults attempts _),
      )

  -- The attempts are run one after another, each on the machine that the one before left, and there is
  -- one result for each, in order, with the attempt's own names, and with the outcome and the redacted
  -- evidence of what the process answered or of the exception that was raised.
  pub run_program_alternate_attempts-AreResults :
      (attempts : List AlternateProgramAttempt) (w : World)
      → let run =
          run_program_alternate_attempts (run_program_alternate_attempt machine) attempts w in
        AreResults attempts w run.0 run.1.attempts
  run_program_alternate_attempts-AreResults attempts w =
      let (last, same, outcome) =
        run_program_alternate_attempts_lem (run_program_alternate_attempt machine) attempts w in
      rw (last, same) (perform_all-AreResults attempts w)
