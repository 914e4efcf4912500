-- ===== src/Groups/Variables/Probes.antt =====
-- The tests of src/sandbox_tester/group_05.py on names and on the search path.
use sandbox_tester.Common.{String, List, [], ◌∷◌, Option, none, some, false, if◌then◌else◌}
use sandbox_tester.Engine.Context.{OperatingSystem, windows, linux}
use sandbox_tester.Engine.Redaction.{take_chars}
use sandbox_tester.Engine.Models.{
  InvocationResult, AlternateInvocationResult, allowed, denied, invocation_result,
}
use sandbox_tester.Engine.Testing.{CapabilityTest}
use sandbox_tester.Groups.Machine.{
  Completed, Machine, is_code, try_except, result_of, to_thread, ◌>>=◌, pure,
}
use sandbox_tester.Groups.Handlers.{shell_exception, tool_exception}
use sandbox_tester.Groups.Variables.{
  summarize_environment_names, names_evidence, sorted_texts, path_variable_evidence,
  run_environment_alternate_attempts,
}
use sandbox_tester.Groups.Variables.Attempts.{
  build_environment_name_alternate_attempts, build_path_variable_alternate_attempts,
}

abbrev pub names_command : OperatingSystem → List String
names_command windows =
    "powershell" ∷ "-NoProfile" ∷ "-Command"
    ∷ "Get-ChildItem Env: | Select-Object -ExpandProperty Name" ∷ []
names_command linux = "sh" ∷ "-c" ∷ "env | cut -d= -f1" ∷ []

abbrev pub path_command : OperatingSystem → List String
path_command windows =
    "powershell" ∷ "-NoProfile" ∷ "-Command"
    ∷ "[Environment]::GetEnvironmentVariable('Path', 'Process')" ∷ []
path_command linux = "sh" ∷ "-c" ∷ "printf '%s' \"$PATH\"" ∷ []

abbrev pub path_variable_name : OperatingSystem → String
path_variable_name windows = "Path"
path_variable_name linux = "PATH"

module _ {World : Type 0} (machine : Machine World) (operating_system : OperatingSystem) where
  unfoldable pub names_shell_result : Completed → InvocationResult
  unfolding summarize_environment_names take_chars
  names_shell_result completed =
      if is_code 0 completed.returncode
      then invocation_result allowed "Shell listed environment variable names."
          (summarize_environment_names completed.stdout)
      else invocation_result denied "Shell command failed." (take_chars 500 completed.stderr)

  unfoldable pub names_run_shell : World → World × InvocationResult
  unfolding names_shell_result shell_exception
  names_run_shell =
      try_except
        (do
          completed ←
              machine.run
                (record { command = names_command operating_system; timeout = 10; replace = false })
          pure (names_shell_result completed))
        shell_exception

  unfoldable pub names_run_tool : World → World × InvocationResult
  unfolding names_evidence sorted_texts tool_exception
  names_run_tool =
      try_except
        (do
          names ← machine.environment_names
          pure (
              invocation_result allowed "Python runtime listed environment variable names."
                (names_evidence (sorted_texts names))))
        tool_exception

  unfoldable pub names_run_alternates : World → World × AlternateInvocationResult
  unfolding run_environment_alternate_attempts build_environment_name_alternate_attempts
  names_run_alternates =
      run_environment_alternate_attempts machine
        (build_environment_name_alternate_attempts operating_system)

  -- `G05_T01`
  abbrev pub names_test : CapabilityTest World
  names_test = record {
    id = "T01";
    title = "List environment variable names";
    run_shell = λ w. result_of (names_run_shell w);
    run_tool = λ w. result_of (names_run_tool w);
    run_alternates = to_thread machine names_run_alternates;
  }

  unfoldable pub path_shell_result : Completed → InvocationResult
  unfolding path_variable_evidence take_chars
  path_shell_result completed =
      if is_code 0 completed.returncode
      then invocation_result allowed "Shell read the path/search-path environment variable."
          (path_variable_evidence machine completed.stdout)
      else invocation_result denied "Shell command failed." (take_chars 500 completed.stderr)

  unfoldable pub path_run_shell : World → World × InvocationResult
  unfolding path_shell_result shell_exception
  path_run_shell =
      try_except
        (do
          completed ←
              machine.run
                (record { command = path_command operating_system; timeout = 10; replace = false })
          pure (path_shell_result completed))
        shell_exception

  unfoldable pub path_tool_result : Option String → InvocationResult
  unfolding path_variable_evidence
  path_tool_result none =
      invocation_result denied "Path/search-path environment variable was not present." ""
  path_tool_result (some value) =
      invocation_result allowed "Python runtime read the path/search-path variable."
        (path_variable_evidence machine value)

  unfoldable pub path_run_tool : World → World × InvocationResult
  unfolding path_tool_result tool_exception
  path_run_tool =
      try_except
        (do
          value ← machine.environment_variable (path_variable_name operating_system)
          pure (path_tool_result value))
        tool_exception

  unfoldable pub path_run_alternates : World → World × AlternateInvocationResult
  unfolding run_environment_alternate_attempts build_path_variable_alternate_attempts
  path_run_alternates =
      run_environment_alternate_attempts machine
        (build_path_variable_alternate_attempts operating_system)

  -- `G05_T04`
  abbrev pub path_test : CapabilityTest World
  path_test = record {
    id = "T04";
    title = "Read path/search-path variable";
    run_shell = λ w. result_of (path_run_shell w);
    run_tool = λ w. result_of (path_run_tool w);
    run_alternates = to_thread machine path_run_alternates;
  }
