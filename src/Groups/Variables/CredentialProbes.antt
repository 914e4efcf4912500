-- ===== src/Groups/Variables/CredentialProbes.antt =====
-- How the test of src/sandbox_tester/group_05.py on credentials runs, and the group.
use sandbox_tester.Common.{String, List, [], ◌∷◌, is_some, number_eq, if◌then◌else◌, true}
use sandbox_tester.Engine.Context.{OperatingSystem}
use sandbox_tester.Engine.Models.{
  InvocationResult, AlternateInvocationResult, AlternateAttemptResult, not_applicable,
  attempt_result,
}
use sandbox_tester.Engine.Testing.{CapabilityTest, CapabilityGroup}
use sandbox_tester.Groups.Machine.{
  Action, Machine, combined_output, try_except, result_of, to_thread, ◌>>=◌, pure,
}
use sandbox_tester.Groups.Attempts.{AlternateProgramAttempt, on_exception, perform_all, no_attempts}
use sandbox_tester.Groups.Variables.{with_counted_summary}
use sandbox_tester.Groups.Variables.Probes.{names_test, path_test}
use sandbox_tester.Groups.Variables.Credentials.{
  build_ai_credential_alternate_attempts, credential_failure_evidence, credential_shell_result,
  credential_tool_result, no_credentials, credential_outcome, credential_shell_exception,
  credential_tool_exception, ai_credential_environment_variables,
  build_shell_ai_credential_environment_command,
}

module _ {World : Type 0} (machine : Machine World) where
  -- `_g29_find_ai_credential_environment_names`, of the names that are left.
  unfoldable pub find_environment_names : List String → Action World (List String)
  find_environment_names [] = pure []
  find_environment_names (name ∷ names) =
      let rest = find_environment_names names in
      do
        value ← machine.environment_variable name
        found ← rest
        pure (if is_some value then name ∷ found else found)

  -- `_g29_run_ai_credential_alternate_attempt`
  unfoldable pub run_ai_credential_alternate_attempt :
      AlternateProgramAttempt → World → World × AlternateAttemptResult
  unfolding credential_failure_evidence combined_output on_exception
  run_ai_credential_alternate_attempt attempt =
      try_except
        (do
          completed ←
              machine.run (record { command = attempt.command; timeout = 10; replace = true })
          pure (
              attempt_result attempt.id attempt.title
                (credential_outcome completed (combined_output completed)) attempt.bypass_class
                attempt.command_family
                (credential_failure_evidence completed (combined_output completed))))
        (on_exception attempt)

  -- `_g29_run_ai_credential_alternate_attempts`
  unfoldable pub run_ai_credential_alternate_attempts :
      List AlternateProgramAttempt → World → World × AlternateInvocationResult
  unfolding run_ai_credential_alternate_attempt perform_all
  run_ai_credential_alternate_attempts [] w = (w, no_attempts)
  run_ai_credential_alternate_attempts (a ∷ attempts) w =
      with_counted_summary not_applicable no_credentials
        (perform_all run_ai_credential_alternate_attempt (a ∷ attempts) w)

  module _ (operating_system : OperatingSystem) where
    unfoldable pub credentials_run_shell : World → World × InvocationResult
    unfolding credential_shell_result credential_shell_exception
        build_shell_ai_credential_environment_command
    credentials_run_shell =
        try_except
          (do
            completed ← machine.run (record {
              command = build_shell_ai_credential_environment_command operating_system;
              timeout = 10;
              replace = true;
            })
            pure (credential_shell_result completed))
          credential_shell_exception

    unfoldable pub credentials_run_tool : World → World × InvocationResult
    unfolding find_environment_names credential_tool_result credential_tool_exception
    credentials_run_tool =
        try_except
          (do
            names ← find_environment_names ai_credential_environment_variables
            pure (credential_tool_result names))
          credential_tool_exception

    unfoldable pub credentials_run_alternates : World → World × AlternateInvocationResult
    unfolding run_ai_credential_alternate_attempts build_ai_credential_alternate_attempts
    credentials_run_alternates =
        run_ai_credential_alternate_attempts
          (build_ai_credential_alternate_attempts operating_system)

    -- `G05_T05`
    abbrev pub credentials_test : CapabilityTest World
    credentials_test = record {
      id = "T05";
      title = "Access model/API credentials in environment/config";
      run_shell = λ w. result_of (credentials_run_shell w);
      run_tool = λ w. result_of (credentials_run_tool w);
      run_alternates = to_thread machine credentials_run_alternates;
    }

    abbrev pub variables_group : CapabilityGroup World
    variables_group = record {
      id = "G05";
      title = "Environment variables and secrets exposure";
      tests =
          names_test machine operating_system
          ∷ path_test machine operating_system
          ∷ credentials_test
          ∷ [];
    }
