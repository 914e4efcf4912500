-- ===== src/Groups/Redacted/Variables.antt =====
-- The evidence of the tests of src/sandbox_tester/group_05.py.
use sandbox_tester.Common.{String, List, [], ◌∷◌, Option, none, some}
use sandbox_tester.Engine.Models.{denied, not_applicable}
use sandbox_tester.Engine.Context.{OperatingSystem}
use sandbox_tester.Engine.Testing.Holds.{TestHolds}
use sandbox_tester.Groups.Machine.{
  Machine, Completed, Raised, file_not_found, permission_error, os_error, timeout_expired,
  other_exception, is_code, combined_output,
}
use sandbox_tester.Groups.Attempts.{
  AlternateProgramAttempt, on_exception, perform_all, count_outcomes, is_allowed,
}
use sandbox_tester.Groups.Variables.{
  run_environment_alternate_attempt, run_environment_alternate_attempts, has_text,
}
use sandbox_tester.Groups.Variables.Probes.{
  names_test, path_test, names_run_shell, names_shell_result, names_run_tool, names_run_alternates,
  path_run_shell, path_shell_result, path_run_tool, path_tool_result, path_run_alternates,
  path_variable_name,
}
use sandbox_tester.Groups.Variables.Credentials.{
  credential_shell_result, credential_tool_result, credential_shell_exception,
  credential_tool_exception, ai_credential_environment_variables,
  build_ai_credential_alternate_attempts, no_credentials,
}
use sandbox_tester.Groups.Variables.CredentialProbes.{
  credentials_test, credentials_run_shell, credentials_run_tool, credentials_run_alternates,
  run_ai_credential_alternate_attempt, run_ai_credential_alternate_attempts, find_environment_names,
}
use sandbox_tester.Groups.Redacted.{
  to_thread_holds, HasRedacted, AttemptRedacted, AlternatesRedacted, invocation_result-HasRedacted,
  bind-Returns, try_except_holds, if_holds, perform_all_holds,
}
use sandbox_tester.Groups.Redacted.Attempts.{
  attempt_result-AttemptRedacted, on_exception-AttemptRedacted, counted_summary-AlternatesRedacted,
}
use sandbox_tester.Groups.Redacted.Programs.{shell_method-HasRedacted, tool_method-HasRedacted}
use sandbox_tester.Groups.Variables.Attempts.{
  build_environment_name_alternate_attempts, build_path_variable_alternate_attempts,
}

credential_shell_exception-HasRedacted : (r : Raised) → HasRedacted (credential_shell_exception r)
unfolding credential_shell_exception
credential_shell_exception-HasRedacted (file_not_found s) = invocation_result-HasRedacted _ _ _
credential_shell_exception-HasRedacted (permission_error s) = invocation_result-HasRedacted _ _ _
credential_shell_exception-HasRedacted (os_error s) = invocation_result-HasRedacted _ _ _
credential_shell_exception-HasRedacted (timeout_expired s) = invocation_result-HasRedacted _ _ _
credential_shell_exception-HasRedacted (other_exception s) = invocation_result-HasRedacted _ _ _

credential_tool_exception-HasRedacted : (r : Raised) → HasRedacted (credential_tool_exception r)
unfolding credential_tool_exception
credential_tool_exception-HasRedacted (file_not_found s) = invocation_result-HasRedacted _ _ _
credential_tool_exception-HasRedacted (permission_error s) = invocation_result-HasRedacted _ _ _
credential_tool_exception-HasRedacted (os_error s) = invocation_result-HasRedacted _ _ _
credential_tool_exception-HasRedacted (timeout_expired s) = invocation_result-HasRedacted _ _ _
credential_tool_exception-HasRedacted (other_exception s) = invocation_result-HasRedacted _ _ _

credential_tool_result-HasRedacted :
    (names : List String) → HasRedacted (credential_tool_result names)
unfolding credential_tool_result
credential_tool_result-HasRedacted [] = invocation_result-HasRedacted _ _ _
credential_tool_result-HasRedacted (name ∷ names) = invocation_result-HasRedacted _ _ _

credential_shell_result-HasRedacted :
    (completed : Completed) → HasRedacted (credential_shell_result completed)
unfolding credential_shell_result
credential_shell_result-HasRedacted completed =
    if_holds HasRedacted (is_code 0 completed.returncode) _ _
      (if_holds HasRedacted (has_text (combined_output completed)) _ _
        (invocation_result-HasRedacted _ _ _) (invocation_result-HasRedacted _ _ _))
      (invocation_result-HasRedacted _ _ _)

module _ {World : Type 0} (machine : Machine World) where
  run_environment_alternate_attempt-AttemptRedacted :
      (attempt : AlternateProgramAttempt) (w : World)
      → AttemptRedacted (run_environment_alternate_attempt machine attempt w).1
  unfolding run_environment_alternate_attempt
  run_environment_alternate_attempt-AttemptRedacted attempt =
      try_except_holds AttemptRedacted _ (on_exception attempt)
        (bind-Returns AttemptRedacted (machine.run _) _
          (λ completed w. attempt_result-AttemptRedacted _ _ _ _ _ _))
        (on_exception-AttemptRedacted attempt)

  run_environment_alternate_attempts-AlternatesRedacted :
      (attempts : List AlternateProgramAttempt) (w : World)
      → AlternatesRedacted (run_environment_alternate_attempts machine attempts w).1
  unfolding run_environment_alternate_attempts
  run_environment_alternate_attempts-AlternatesRedacted [] w = tt
  run_environment_alternate_attempts-AlternatesRedacted (a ∷ attempts) w =
      let results = (perform_all (run_environment_alternate_attempt machine) (a ∷ attempts) w).1 in
      counted_summary-AlternatesRedacted (count_outcomes is_allowed results) denied
        "No alternate shell attempts succeeded." results
        (perform_all_holds AttemptRedacted (run_environment_alternate_attempt machine)
          run_environment_alternate_attempt-AttemptRedacted (a ∷ attempts) w)

  run_ai_credential_alternate_attempt-AttemptRedacted :
      (attempt : AlternateProgramAttempt) (w : World)
      → AttemptRedacted (run_ai_credential_alternate_attempt machine attempt w).1
  unfolding run_ai_credential_alternate_attempt
  run_ai_credential_alternate_attempt-AttemptRedacted attempt =
      try_except_holds AttemptRedacted _ (on_exception attempt)
        (bind-Returns AttemptRedacted (machine.run _) _
          (λ completed w. attempt_result-AttemptRedacted _ _ _ _ _ _))
        (on_exception-AttemptRedacted attempt)

  run_ai_credential_alternate_attempts-AlternatesRedacted :
      (attempts : List AlternateProgramAttempt) (w : World)
      → AlternatesRedacted (run_ai_credential_alternate_attempts machine attempts w).1
  unfolding run_ai_credential_alternate_attempts
  run_ai_credential_alternate_attempts-AlternatesRedacted [] w = tt
  run_ai_credential_alternate_attempts-AlternatesRedacted (a ∷ attempts) w =
      let results =
        (perform_all (run_ai_credential_alternate_attempt machine) (a ∷ attempts) w).1 in
      counted_summary-AlternatesRedacted (count_outcomes is_allowed results) not_applicable
        no_credentials results
        (perform_all_holds AttemptRedacted (run_ai_credential_alternate_attempt machine)
          run_ai_credential_alternate_attempt-AttemptRedacted (a ∷ attempts) w)

  path_tool_result-HasRedacted :
      (os : OperatingSystem) (value : Option String)
      → HasRedacted (path_tool_result machine os value)
  unfolding path_tool_result
  path_tool_result-HasRedacted os none = invocation_result-HasRedacted _ _ _
  path_tool_result-HasRedacted os (some s) = invocation_result-HasRedacted _ _ _

module _ {World : Type 0} (machine : Machine World) (operating_system : OperatingSystem) where
  pub names_test-TestHolds :
      TestHolds HasRedacted AlternatesRedacted (names_test machine operating_system)
  unfolding names_run_shell names_shell_result names_run_tool names_run_alternates
  names_test-TestHolds = (
    shell_method-HasRedacted (machine.run _) _ (λ completed.
        if_holds HasRedacted (is_code 0 completed.returncode) _ _
          (invocation_result-HasRedacted _ _ _) (invocation_result-HasRedacted _ _ _)),
    tool_method-HasRedacted machine.environment_names _
        (λ names. invocation_result-HasRedacted _ _ _),
    to_thread_holds AlternatesRedacted machine _ (
        run_environment_alternate_attempts-AlternatesRedacted machine
          (build_environment_name_alternate_attempts operating_system)),
  )

  pub path_test-TestHolds :
      TestHolds HasRedacted AlternatesRedacted (path_test machine operating_system)
  unfolding path_run_shell path_shell_result path_run_tool path_run_alternates
  path_test-TestHolds = (
    shell_method-HasRedacted (machine.run _) _ (λ completed.
        if_holds HasRedacted (is_code 0 completed.returncode) _ _
          (invocation_result-HasRedacted _ _ _) (invocation_result-HasRedacted _ _ _)),
    tool_method-HasRedacted (machine.environment_variable (path_variable_name operating_system)) _
        (path_tool_result-HasRedacted machine operating_system),
    to_thread_holds AlternatesRedacted machine _ (
        run_environment_alternate_attempts-AlternatesRedacted machine
          (build_path_variable_alternate_attempts operating_system)),
  )

  pub credentials_test-TestHolds :
      TestHolds HasRedacted AlternatesRedacted (credentials_test machine operating_system)
  unfolding credentials_run_shell credentials_run_tool credentials_run_alternates
  credentials_test-TestHolds = (
    try_except_holds HasRedacted _ credential_shell_exception
        (bind-Returns HasRedacted (machine.run _) _
          (λ completed w. credential_shell_result-HasRedacted completed))
        credential_shell_exception-HasRedacted,
    try_except_holds HasRedacted _ credential_tool_exception
        (bind-Returns HasRedacted
          (find_environment_names machine ai_credential_environment_variables) _
          (λ names w. credential_tool_result-HasRedacted names))
        credential_tool_exception-HasRedacted,
    to_thread_holds AlternatesRedacted machine _ (
        run_ai_credential_alternate_attempts-AlternatesRedacted machine
          (build_ai_credential_alternate_attempts operating_system)),
  )
