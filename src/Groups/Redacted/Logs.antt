-- ===== src/Groups/Redacted/Logs.antt =====
-- The evidence of the tests of src/sandbox_tester/group_22.py.
use sandbox_tester.Common.{String, [], ◌∷◌}
use sandbox_tester.Common.PosixPath.{FilePath}
use sandbox_tester.Engine.Context.{OperatingSystem}
use sandbox_tester.Engine.Testing.Holds.{TestHolds}
use sandbox_tester.Groups.Machine.{
  Machine, Completed, Action, is_code, Raised, file_not_found, permission_error, os_error,
  timeout_expired, other_exception,
}
use sandbox_tester.Groups.Logs.{
  AlternateLogAttempt, run_log_alternate_attempt, log_attempt_result, on_log_exception,
  log_exception_result, run_single_log_alternate, log_shell_exception, write_tool_exception,
  read_tool_exception,
}
use sandbox_tester.Groups.Logs.Writing.{
  application_log_file, write_log_run_shell, written_with_shell, write_log_run_tool,
  write_log_run_alternates, write_log_test,
}
use sandbox_tester.Groups.Logs.Sources.{
  read_system_logs_with_shell, read_security_logs_with_shell, read_system_logs_with_tool,
  read_security_logs_with_tool, write_application_log_entry_with_shell,
  write_application_log_entry_with_tool, path_and_size,
}
use sandbox_tester.Groups.Redacted.{
  to_thread_holds, HasRedacted, AttemptRedacted, AlternatesRedacted, invocation_result-HasRedacted,
  bind-Returns, try_except_holds, if_holds, if_Returns, Returns,
}
use sandbox_tester.Groups.Redacted.Attempts.{
  attempt_result-AttemptRedacted, run_program_alternate_attempts-AlternatesRedacted,
}
use sandbox_tester.Groups.Logs.Reading.{
  security_logs_run_shell, system_logs_run_shell, security_logs_run_tool, system_logs_run_tool,
  security_logs_run_alternates, system_logs_run_alternates, security_logs_run_shell_result,
  system_logs_run_shell_result, security_logs_test, system_logs_test,
}

log_exception_result-AttemptRedacted :
    {World : Type 0} (attempt : AlternateLogAttempt World) (r : Raised)
    → AttemptRedacted (on_log_exception attempt r)
unfolding on_log_exception log_exception_result
log_exception_result-AttemptRedacted attempt (file_not_found s) =
    attempt_result-AttemptRedacted _ _ _ _ _ _
log_exception_result-AttemptRedacted attempt (permission_error s) =
    attempt_result-AttemptRedacted _ _ _ _ _ _
log_exception_result-AttemptRedacted attempt (os_error s) =
    attempt_result-AttemptRedacted _ _ _ _ _ _
log_exception_result-AttemptRedacted attempt (timeout_expired s) =
    attempt_result-AttemptRedacted _ _ _ _ _ _
log_exception_result-AttemptRedacted attempt (other_exception s) =
    attempt_result-AttemptRedacted _ _ _ _ _ _

log_shell_exception-HasRedacted :
    (timed_out failed : String) (r : Raised) → HasRedacted (log_shell_exception timed_out failed r)
unfolding log_shell_exception
log_shell_exception-HasRedacted timed_out failed (file_not_found s) =
    invocation_result-HasRedacted _ _ _
log_shell_exception-HasRedacted timed_out failed (permission_error s) =
    invocation_result-HasRedacted _ _ _
log_shell_exception-HasRedacted timed_out failed (os_error s) = invocation_result-HasRedacted _ _ _
log_shell_exception-HasRedacted timed_out failed (timeout_expired s) =
    invocation_result-HasRedacted _ _ _
log_shell_exception-HasRedacted timed_out failed (other_exception s) =
    invocation_result-HasRedacted _ _ _

write_tool_exception-HasRedacted : (r : Raised) → HasRedacted (write_tool_exception r)
unfolding write_tool_exception
write_tool_exception-HasRedacted (file_not_found s) = invocation_result-HasRedacted _ _ _
write_tool_exception-HasRedacted (permission_error s) = invocation_result-HasRedacted _ _ _
write_tool_exception-HasRedacted (os_error s) = invocation_result-HasRedacted _ _ _
write_tool_exception-HasRedacted (timeout_expired s) = invocation_result-HasRedacted _ _ _
write_tool_exception-HasRedacted (other_exception s) = invocation_result-HasRedacted _ _ _

read_tool_exception-HasRedacted :
    (missing failed : String) (r : Raised) → HasRedacted (read_tool_exception missing failed r)
unfolding read_tool_exception
read_tool_exception-HasRedacted missing failed (file_not_found s) =
    invocation_result-HasRedacted _ _ _
read_tool_exception-HasRedacted missing failed (permission_error s) =
    invocation_result-HasRedacted _ _ _
read_tool_exception-HasRedacted missing failed (os_error s) = invocation_result-HasRedacted _ _ _
read_tool_exception-HasRedacted missing failed (timeout_expired s) =
    invocation_result-HasRedacted _ _ _
read_tool_exception-HasRedacted missing failed (other_exception s) =
    invocation_result-HasRedacted _ _ _

module _ {World : Type 0} where
  run_log_alternate_attempt-AttemptRedacted :
      (attempt : AlternateLogAttempt World) (w : World)
      → AttemptRedacted (run_log_alternate_attempt attempt w).1
  unfolding run_log_alternate_attempt log_attempt_result
  run_log_alternate_attempt-AttemptRedacted attempt =
      try_except_holds AttemptRedacted _ (on_log_exception attempt)
        (bind-Returns AttemptRedacted attempt.operation _
          (λ completed w. attempt_result-AttemptRedacted _ _ _ _ _ _))
        (log_exception_result-AttemptRedacted attempt)

  run_single_log_alternate-AlternatesRedacted :
      (title bypass_class command_family : String) (operation : Action World Completed) (w : World)
      → AlternatesRedacted
          (run_single_log_alternate title bypass_class command_family operation w).1
  unfolding run_single_log_alternate
  run_single_log_alternate-AlternatesRedacted title bypass_class command_family operation =
      run_program_alternate_attempts-AlternatesRedacted run_log_alternate_attempt
        run_log_alternate_attempt-AttemptRedacted (_ ∷ [])

module _ {World : Type 0} (machine : Machine World) (operating_system : OperatingSystem) where
  written_with_shell-Returns :
      (log_file : FilePath) (completed : Completed)
      → Returns HasRedacted (written_with_shell machine log_file completed)
  unfolding written_with_shell
  written_with_shell-Returns log_file completed =
      if_Returns HasRedacted (is_code 0 completed.returncode) _ _
        (bind-Returns HasRedacted (machine.exists log_file) _ (λ found.
          if_Returns HasRedacted found _ _
            (bind-Returns HasRedacted (path_and_size machine log_file) _
              (λ evidence w. invocation_result-HasRedacted _ _ _))
            (λ w. invocation_result-HasRedacted _ _ _)))
        (λ w. invocation_result-HasRedacted _ _ _)

  pub write_log_test-TestHolds :
      (allowed_directory : FilePath)
      → TestHolds HasRedacted AlternatesRedacted
          (write_log_test machine operating_system allowed_directory)
  unfolding write_log_run_shell write_log_run_tool write_log_run_alternates
  write_log_test-TestHolds allowed_directory = (
    try_except_holds HasRedacted _ (log_shell_exception _ _)
        (bind-Returns HasRedacted
          (write_application_log_entry_with_shell machine operating_system
            (application_log_file allowed_directory))
          _ (λ completed. written_with_shell-Returns _ completed))
        (log_shell_exception-HasRedacted _ _),
    try_except_holds HasRedacted _ write_tool_exception
        (bind-Returns HasRedacted
          (write_application_log_entry_with_tool machine (application_log_file allowed_directory)) _
          (λ evidence w. invocation_result-HasRedacted _ _ _))
        write_tool_exception-HasRedacted,
    to_thread_holds AlternatesRedacted machine _
        (run_single_log_alternate-AlternatesRedacted _ _ _ _),
  )

  pub system_logs_test-TestHolds :
      TestHolds HasRedacted AlternatesRedacted (system_logs_test machine operating_system)
  unfolding system_logs_run_shell system_logs_run_tool system_logs_run_alternates
      system_logs_run_shell_result
  system_logs_test-TestHolds = (
    try_except_holds HasRedacted _ (log_shell_exception _ _)
        (bind-Returns HasRedacted (read_system_logs_with_shell machine operating_system) _
          (λ completed w.
            if_holds HasRedacted (is_code 0 completed.returncode) _ _
              (invocation_result-HasRedacted _ _ _)
              (if_holds HasRedacted (is_code 127 completed.returncode) _ _
                (invocation_result-HasRedacted _ _ _) (invocation_result-HasRedacted _ _ _))))
        (log_shell_exception-HasRedacted _ _),
    try_except_holds HasRedacted _ (read_tool_exception _ _)
        (bind-Returns HasRedacted (read_system_logs_with_tool machine operating_system) _
          (λ evidence w. invocation_result-HasRedacted _ _ _))
        (read_tool_exception-HasRedacted _ _),
    to_thread_holds AlternatesRedacted machine _
        (run_single_log_alternate-AlternatesRedacted _ _ _ _),
  )

  pub security_logs_test-TestHolds :
      TestHolds HasRedacted AlternatesRedacted (security_logs_test machine operating_system)
  unfolding security_logs_run_shell security_logs_run_tool security_logs_run_alternates
      security_logs_run_shell_result
  security_logs_test-TestHolds = (
    try_except_holds HasRedacted _ (log_shell_exception _ _)
        (bind-Returns HasRedacted (read_security_logs_with_shell machine operating_system) _
          (λ completed w.
            if_holds HasRedacted (is_code 0 completed.returncode) _ _
              (invocation_result-HasRedacted _ _ _)
              (if_holds HasRedacted (is_code 127 completed.returncode) _ _
                (invocation_result-HasRedacted _ _ _) (invocation_result-HasRedacted _ _ _))))
        (log_shell_exception-HasRedacted _ _),
    try_except_holds HasRedacted _ (read_tool_exception _ _)
        (bind-Returns HasRedacted (read_security_logs_with_tool machine operating_system) _
          (λ evidence w. invocation_result-HasRedacted _ _ _))
        (read_tool_exception-HasRedacted _ _),
    to_thread_holds AlternatesRedacted machine _
        (run_single_log_alternate-AlternatesRedacted _ _ _ _),
  )
