-- ===== src/Groups/Redacted/Attempts.antt =====
-- The evidence of alternate attempts, and of the handlers that tests share.
use sandbox_tester.Common.{ℕ, zero, suc, List, refl, All, String}
use sandbox_tester.Engine.Models.{Outcome, AlternateAttemptResult, attempt_result}
use sandbox_tester.Groups.Machine.{
  Raised, permission_error, file_not_found, os_error, timeout_expired, other_exception, Machine,
  repr,
}
use sandbox_tester.Groups.Handlers.{shell_exception, tool_exception}
use sandbox_tester.Groups.Attempts.{
  AlternateProgramAttempt, on_exception, run_program_alternate_attempt,
  run_program_alternate_attempts,
}
use sandbox_tester.Groups.Attempts.Order.{run_program_alternate_attempt_lem, exception-IsResultOf}
use sandbox_tester.Groups.Attempts.Outcomes.{run_program_alternate_attempts_lem}
use sandbox_tester.Groups.Variables.{counted_summary}
use sandbox_tester.Groups.Redacted.{
  HasRedacted, AttemptRedacted, AlternatesRedacted, invocation_result-HasRedacted,
  perform_all_holds,
}

pub on_exception-AttemptRedacted :
    (attempt : AlternateProgramAttempt) (r : Raised) → AttemptRedacted (on_exception attempt r)
on_exception-AttemptRedacted attempt r =
    let (id, title, bypass_class, command_family, outcome, evidence) =
      exception-IsResultOf attempt r in
    (repr r, evidence)

pub attempt_result-AttemptRedacted :
    (id title : String) (outcome : Outcome) (bypass_class command_family evidence : String)
    → AttemptRedacted (attempt_result id title outcome bypass_class command_family evidence)
unfolding attempt_result
attempt_result-AttemptRedacted id title outcome bypass_class command_family evidence =
    (evidence, refl)

pub run_program_alternate_attempt-AttemptRedacted :
    {World : Type 0} (machine : Machine World) (attempt : AlternateProgramAttempt) (w : World)
    → AttemptRedacted (run_program_alternate_attempt machine attempt w).1
run_program_alternate_attempt-AttemptRedacted machine attempt w =
    let (next, (id, title, bypass_class, command_family, outcome, evidence)) =
      run_program_alternate_attempt_lem machine attempt w in
    (_, evidence)

pub run_program_alternate_attempts-AlternatesRedacted :
    {World A : Type 0} (perform : A → World → World × AlternateAttemptResult)
    → ((a : A) (w : World) → AttemptRedacted (perform a w).1)
    → (attempts : List A) (w : World)
    → AlternatesRedacted (run_program_alternate_attempts perform attempts w).1
run_program_alternate_attempts-AlternatesRedacted perform h attempts w =
    let (last, same, outcome) = run_program_alternate_attempts_lem perform attempts w in
    rw same (perform_all_holds AttemptRedacted perform h attempts w)

pub counted_summary-AlternatesRedacted :
    (n : ℕ) (outcome : Outcome) (summary : String) (results : List AlternateAttemptResult)
    → All AttemptRedacted results
    → AlternatesRedacted (counted_summary n outcome summary results)
counted_summary-AlternatesRedacted zero outcome summary results h = h
counted_summary-AlternatesRedacted (suc n) outcome summary results h = h

pub shell_exception-HasRedacted : (r : Raised) → HasRedacted (shell_exception r)
unfolding shell_exception
shell_exception-HasRedacted (permission_error s) = invocation_result-HasRedacted _ _ _
shell_exception-HasRedacted (file_not_found s) = invocation_result-HasRedacted _ _ _
shell_exception-HasRedacted (os_error s) = invocation_result-HasRedacted _ _ _
shell_exception-HasRedacted (timeout_expired s) = invocation_result-HasRedacted _ _ _
shell_exception-HasRedacted (other_exception s) = invocation_result-HasRedacted _ _ _

pub tool_exception-HasRedacted : (r : Raised) → HasRedacted (tool_exception r)
unfolding tool_exception
tool_exception-HasRedacted (permission_error s) = invocation_result-HasRedacted _ _ _
tool_exception-HasRedacted (file_not_found s) = invocation_result-HasRedacted _ _ _
tool_exception-HasRedacted (os_error s) = invocation_result-HasRedacted _ _ _
tool_exception-HasRedacted (timeout_expired s) = invocation_result-HasRedacted _ _ _
tool_exception-HasRedacted (other_exception s) = invocation_result-HasRedacted _ _ _
