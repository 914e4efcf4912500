-- ===== src/Groups/Logs/Writing.antt =====
-- The test of src/sandbox_tester/group_22.py that writes a log entry.
use sandbox_tester.Common.{if◌then◌else◌}
use sandbox_tester.Common.PosixPath.{FilePath}
use sandbox_tester.Engine.Context.{OperatingSystem}
use sandbox_tester.Engine.Models.{
  InvocationResult, AlternateInvocationResult, allowed, denied, invocation_result,
}
use sandbox_tester.Engine.Testing.{CapabilityTest}
use sandbox_tester.Groups.Machine.{
  Action, Completed, Machine, is_code, combined_output, try_except, result_of, to_thread, pure, pos,
  ◌>>=◌,
}
use sandbox_tester.Groups.Logs.Commands.{log_write_command_family}
use sandbox_tester.Groups.Logs.{
  log_failure_evidence, run_single_log_alternate, log_shell_exception, write_tool_exception,
}
use sandbox_tester.Groups.Logs.Sources.{
  path_and_size, write_application_log_entry_with_shell, write_application_log_entry_with_tool,
}
use sandbox_tester.Common.PosixPath

abbrev pub application_log_file : FilePath → FilePath
application_log_file allowed_directory = PosixPath.child allowed_directory "sandbox-tester.log"

module _ {World : Type 0} (machine : Machine World) where
  abbrev pub not_written : Completed → InvocationResult
  not_written completed =
      invocation_result denied "Shell could not write an application log entry."
        (log_failure_evidence completed (combined_output completed))

  -- What `G22_T01.run_shell` makes of the process: the file is looked for only after a success.
  unfoldable pub written_with_shell : FilePath → Completed → Action World InvocationResult
  unfolding log_failure_evidence combined_output path_and_size
  written_with_shell log_file completed =
      if is_code 0 completed.returncode
      then (machine.exists log_file >>= λ found.
          if found
          then (path_and_size machine log_file >>= λ evidence.
              pure (invocation_result allowed "Shell wrote an application log entry." evidence))
          else pure (not_written completed))
      else pure (not_written completed)

  abbrev pub missing_log_file : Completed
  missing_log_file = record {
    returncode = pos 1;
    stdout = "";
    stderr = "Application log command succeeded, but log file was not found.";
  }

  -- `_write_application_log_alternate`
  unfoldable pub write_application_log_alternate :
      OperatingSystem → FilePath → Action World Completed
  unfolding write_application_log_entry_with_shell path_and_size
  write_application_log_alternate operating_system log_file =
      write_application_log_entry_with_shell machine operating_system log_file >>= λ completed.
      if is_code 0 completed.returncode
      then (machine.exists log_file >>= λ found.
          if found
          then (path_and_size machine log_file >>= λ evidence.
              pure (record { returncode = pos 0; stdout = evidence; stderr = completed.stderr }))
          else pure missing_log_file)
      else pure completed

  module _ (operating_system : OperatingSystem) (allowed_directory : FilePath) where
    unfoldable pub write_log_run_shell : World → World × InvocationResult
    unfolding write_application_log_entry_with_shell written_with_shell log_shell_exception
    write_log_run_shell =
        let log_file = application_log_file allowed_directory in
        try_except
          (do
            completed ← write_application_log_entry_with_shell machine operating_system log_file
            written_with_shell log_file completed)
          (log_shell_exception "Shell application log write timed out."
            "Shell application log write failed.")

    unfoldable pub write_log_run_tool : World → World × InvocationResult
    unfolding write_application_log_entry_with_tool write_tool_exception
    write_log_run_tool =
        try_except
          (do
            evidence ←
                write_application_log_entry_with_tool machine
                  (application_log_file allowed_directory)
            pure (
                invocation_result allowed "Python runtime wrote an application log entry."
                  evidence))
          write_tool_exception

    unfoldable pub write_log_run_alternates : World → World × AlternateInvocationResult
    unfolding run_single_log_alternate write_application_log_alternate log_write_command_family
    write_log_run_alternates =
        run_single_log_alternate "Write application log entry with alternate append command"
          "application_log_write" (log_write_command_family operating_system)
          (write_application_log_alternate operating_system
            (application_log_file allowed_directory))

    -- `G22_T01`
    abbrev pub write_log_test : CapabilityTest World
    write_log_test = record {
      id = "T01";
      title = "Write application log entry";
      run_shell = λ w. result_of (write_log_run_shell w);
      run_tool = λ w. result_of (write_log_run_tool w);
      run_alternates = to_thread machine write_log_run_alternates;
    }
