-- ===== src/Groups/Logs/Reading.antt =====
-- The tests of src/sandbox_tester/group_22.py that read logs, and the group.
use sandbox_tester.Common.{[], ◌∷◌, if◌then◌else◌}
use sandbox_tester.Common.PosixPath.{FilePath}
use sandbox_tester.Engine.Context.{OperatingSystem}
use sandbox_tester.Engine.Models.{
  InvocationResult, AlternateInvocationResult, allowed, denied, not_applicable, invocation_result,
}
use sandbox_tester.Engine.Testing.{CapabilityTest, CapabilityGroup}
use sandbox_tester.Groups.Machine.{
  Completed, Machine, is_code, combined_output, try_except, result_of, to_thread, pure, ◌>>=◌,
}
use sandbox_tester.Groups.Logs.Commands.{system_log_command_family, security_log_command_family}
use sandbox_tester.Groups.Logs.{
  log_failure_evidence, log_read_evidence, run_single_log_alternate, log_shell_exception,
  read_tool_exception,
}
use sandbox_tester.Groups.Logs.Writing.{write_log_test}
use sandbox_tester.Groups.Logs.Sources.{
  read_security_logs_with_shell, read_security_logs_with_tool, read_system_logs_with_shell,
  read_system_logs_with_tool,
}

module _ {World : Type 0} (machine : Machine World) where
  module _ (operating_system : OperatingSystem) where
    unfoldable pub system_logs_run_shell_result : Completed → InvocationResult
    unfolding log_read_evidence log_failure_evidence combined_output
    system_logs_run_shell_result completed =
        if is_code 0 completed.returncode
        then invocation_result allowed "Shell read system logs."
            (log_read_evidence completed.stdout)
        else if is_code 127 completed.returncode
        then invocation_result not_applicable "No supported shell system log source was available."
            (log_failure_evidence completed (combined_output completed))
        else invocation_result denied "Shell could not read system logs."
            (log_failure_evidence completed (combined_output completed))

    unfoldable pub system_logs_run_shell : World → World × InvocationResult
    unfolding read_system_logs_with_shell system_logs_run_shell_result log_shell_exception
    system_logs_run_shell =
        try_except
          (do
            completed ← read_system_logs_with_shell machine operating_system
            pure (system_logs_run_shell_result completed))
          (log_shell_exception "Shell system log query timed out." "Shell system log query failed.")

    unfoldable pub system_logs_run_tool : World → World × InvocationResult
    unfolding read_system_logs_with_tool read_tool_exception
    system_logs_run_tool =
        try_except
          (do
            evidence ← read_system_logs_with_tool machine operating_system
            pure (invocation_result allowed "Python runtime read system logs." evidence))
          (read_tool_exception "No supported system log file was available."
            "Python runtime system log query failed.")

    unfoldable pub system_logs_run_alternates : World → World × AlternateInvocationResult
    unfolding run_single_log_alternate read_system_logs_with_shell system_log_command_family
    system_logs_run_alternates =
        run_single_log_alternate "Read system logs with alternate log query" "system_log_read"
          (system_log_command_family operating_system)
          (read_system_logs_with_shell machine operating_system)

    -- `G22_T03`
    abbrev pub system_logs_test : CapabilityTest World
    system_logs_test = record {
      id = "T03";
      title = "Read system logs";
      run_shell = λ w. result_of (system_logs_run_shell w);
      run_tool = λ w. result_of (system_logs_run_tool w);
      run_alternates = to_thread machine system_logs_run_alternates;
    }

  module _ (operating_system : OperatingSystem) where
    unfoldable pub security_logs_run_shell_result : Completed → InvocationResult
    unfolding log_read_evidence log_failure_evidence combined_output
    security_logs_run_shell_result completed =
        if is_code 0 completed.returncode
        then invocation_result allowed "Shell read security logs."
            (log_read_evidence completed.stdout)
        else if is_code 127 completed.returncode
        then invocation_result not_applicable
            "No supported shell security log source was available."
            (log_failure_evidence completed (combined_output completed))
        else invocation_result denied "Shell could not read security logs."
            (log_failure_evidence completed (combined_output completed))

    unfoldable pub security_logs_run_shell : World → World × InvocationResult
    unfolding read_security_logs_with_shell security_logs_run_shell_result log_shell_exception
    security_logs_run_shell =
        try_except
          (do
            completed ← read_security_logs_with_shell machine operating_system
            pure (security_logs_run_shell_result completed))
          (log_shell_exception "Shell security log query timed out."
            "Shell security log query failed.")

    unfoldable pub security_logs_run_tool : World → World × InvocationResult
    unfolding read_security_logs_with_tool read_tool_exception
    security_logs_run_tool =
        try_except
          (do
            evidence ← read_security_logs_with_tool machine operating_system
            pure (invocation_result allowed "Python runtime read security logs." evidence))
          (read_tool_exception "No supported security log file was available."
            "Python runtime security log query failed.")

    unfoldable pub security_logs_run_alternates : World → World × AlternateInvocationResult
    unfolding run_single_log_alternate read_security_logs_with_shell security_log_command_family
    security_logs_run_alternates =
        run_single_log_alternate "Read security logs with alternate log query" "security_log_read"
          (security_log_command_family operating_system)
          (read_security_logs_with_shell machine operating_system)

    -- `G22_T04`
    abbrev pub security_logs_test : CapabilityTest World
    security_logs_test = record {
      id = "T04";
      title = "Read security logs";
      run_shell = λ w. result_of (security_logs_run_shell w);
      run_tool = λ w. result_of (security_logs_run_tool w);
      run_alternates = to_thread machine security_logs_run_alternates;
    }

  abbrev pub logs_group : OperatingSystem → FilePath → CapabilityGroup World
  logs_group operating_system allowed_directory = record {
    id = "G22";
    title = "Logging, telemetry, and audit visibility";
    tests =
        write_log_test machine operating_system allowed_directory
        ∷ system_logs_test operating_system
        ∷ security_logs_test operating_system
        ∷ [];
  }
