-- ===== src/Groups/Logs.antt =====
-- src/sandbox_tester/group_22.py: logs of the application and of the system.
pub mod Commands
pub mod Sources
pub mod Writing
pub mod Reading
use sandbox_tester.Common.{ℕ, String, ◌<>◌, Bool, true, false, ◌&&◌, List, [], ◌∷◌, if◌then◌else◌}
use sandbox_tester.Common.Text.{strip, is_space, decimal, join}
use sandbox_tester.Common.PosixPath.{FilePath}
use sandbox_tester.Engine.Context.{OperatingSystem, windows, linux}
use sandbox_tester.Engine.Redaction.{take_chars}
use sandbox_tester.Engine.Models.{
  Outcome, InvocationResult, AlternateAttemptResult, AlternateInvocationResult, allowed, denied,
  error, not_applicable, invocation_result, attempt_result,
}
use sandbox_tester.Engine.Testing.{CapabilityTest, CapabilityGroup}
use sandbox_tester.Groups.Machine.{
  Raised, file_not_found, permission_error, os_error, timeout_expired, other_exception, repr,
  Action, Completed, Machine, int_text, is_code, combined_output, try_except, ◌>>=◌, result_of,
  pure, raise, utf8_size, pos,
}
use sandbox_tester.Groups.Attempts.{run_program_alternate_attempts}
use sandbox_tester.Groups.Logs.Commands.{
  append_log_command, system_log_command, security_log_command, log_write_command_family,
  system_log_command_family, security_log_command_family,
}
use sandbox_tester.Common.PosixPath

-- `_failure_evidence`
unfoldable pub log_failure_evidence : Completed → String → String
unfolding take_chars
log_failure_evidence completed combined =
    "returncode=" <> (int_text completed.returncode <> ("; output=" <> take_chars 500 combined))

abbrev pub or_text : String → String → String
or_text String.[] default = default
or_text s default = s

-- `_log_read_evidence`
unfoldable pub log_read_evidence : String → String
unfolding take_chars strip
log_read_evidence output = or_text (take_chars 500 (strip is_space output)) "log_read=True"

-- `_AlternateLogAttempt`
pub record AlternateLogAttempt (World : Type 0) : Type 0 where
  pub id : String
  pub title : String
  pub bypass_class : String
  pub command_family : String
  pub operation : Action World Completed

-- 127 is `_NO_SHELL_CANDIDATE_EXIT_CODE`.
abbrev pub log_outcome : Completed → Outcome
log_outcome c =
    if is_code 0 c.returncode
    then allowed
    else if is_code 127 c.returncode
    then not_applicable
    else denied

module _ {World : Type 0} where
  -- `_alternate_exception_result`
  unfoldable pub log_exception_result :
      AlternateLogAttempt World → Outcome → Raised → AlternateAttemptResult
  log_exception_result attempt outcome raised =
      attempt_result attempt.id attempt.title outcome attempt.bypass_class attempt.command_family
        (repr raised)

  unfoldable pub on_log_exception : AlternateLogAttempt World → Raised → AlternateAttemptResult
  unfolding log_exception_result
  on_log_exception attempt (file_not_found s) =
      log_exception_result attempt not_applicable (file_not_found s)
  on_log_exception attempt (permission_error s) =
      log_exception_result attempt denied (permission_error s)
  on_log_exception attempt (timeout_expired s) =
      log_exception_result attempt denied (timeout_expired s)
  on_log_exception attempt (os_error s) = log_exception_result attempt denied (os_error s)
  on_log_exception attempt (other_exception s) =
      log_exception_result attempt error (other_exception s)

  unfoldable pub log_attempt_result : AlternateLogAttempt World → Completed → AlternateAttemptResult
  unfolding combined_output log_failure_evidence
  log_attempt_result attempt completed =
      attempt_result attempt.id attempt.title (log_outcome completed) attempt.bypass_class
        attempt.command_family (log_failure_evidence completed (combined_output completed))

  -- `_run_log_alternate_attempt`
  unfoldable pub run_log_alternate_attempt :
      AlternateLogAttempt World → World → World × AlternateAttemptResult
  unfolding log_attempt_result on_log_exception
  run_log_alternate_attempt attempt =
      try_except (do completed ← attempt.operation; pure (log_attempt_result attempt completed))
        (on_log_exception attempt)

  -- `_run_single_log_alternate`
  unfoldable pub run_single_log_alternate :
      String → String → String → Action World Completed → World → World × AlternateInvocationResult
  unfolding run_program_alternate_attempts run_log_alternate_attempt
  run_single_log_alternate title bypass_class command_family operation =
      let attempt : AlternateLogAttempt World = record {
        id = "A01";
        title = title;
        bypass_class = bypass_class;
        command_family = command_family;
        operation = operation;
      } in
      run_program_alternate_attempts run_log_alternate_attempt (attempt ∷ [])

-- The handlers of a `run_shell`, whose summaries differ for a timeout and for an error of the system.
unfoldable pub log_shell_exception : String → String → Raised → InvocationResult
log_shell_exception timed_out failed (permission_error s) =
    invocation_result denied "Shell invocation was denied by runtime permissions." s
log_shell_exception timed_out failed (timeout_expired s) = invocation_result denied timed_out s
log_shell_exception timed_out failed (other_exception s) =
    invocation_result error "Shell invocation raised an exception." s
log_shell_exception timed_out failed (file_not_found s) = invocation_result denied failed s
log_shell_exception timed_out failed (os_error s) = invocation_result denied failed s

-- The handlers of the `run_tool` that writes.
unfoldable pub write_tool_exception : Raised → InvocationResult
write_tool_exception (permission_error s) =
    invocation_result denied "Tool invocation was denied by runtime permissions." s
write_tool_exception (file_not_found s) =
    invocation_result denied "Python runtime application log write failed." s
write_tool_exception (os_error s) =
    invocation_result denied "Python runtime application log write failed." s
write_tool_exception (timeout_expired s) =
    invocation_result error "Tool invocation raised an exception." s
write_tool_exception (other_exception s) =
    invocation_result error "Tool invocation raised an exception." s

-- The handlers of a `run_tool` that reads.
unfoldable pub read_tool_exception : String → String → Raised → InvocationResult
read_tool_exception missing failed (file_not_found s) = invocation_result not_applicable missing s
read_tool_exception missing failed (permission_error s) =
    invocation_result denied "Tool invocation was denied by runtime permissions." s
read_tool_exception missing failed (os_error s) = invocation_result denied failed s
read_tool_exception missing failed (timeout_expired s) =
    invocation_result error "Tool invocation raised an exception." s
read_tool_exception missing failed (other_exception s) =
    invocation_result error "Tool invocation raised an exception." s
