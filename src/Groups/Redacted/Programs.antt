-- ===== src/Groups/Redacted/Programs.antt =====
-- The evidence of the tests of src/sandbox_tester/group_04.py and group_08.py.
use sandbox_tester.Common.{String, Option, none, some, ℕ}
use sandbox_tester.Engine.Context.{OperatingSystem}
use sandbox_tester.Engine.Models.{InvocationResult}
use sandbox_tester.Engine.Testing.Holds.{TestHolds}
use sandbox_tester.Groups.Machine.{Machine, Action, pure, try_except, is_code, ◌>>=◌}
use sandbox_tester.Groups.Handlers.{shell_exception, tool_exception}
use sandbox_tester.Groups.DiskSpace.{
  disk_space_test, disk_space_run_shell, disk_space_shell_result, disk_space_run_tool,
  disk_space_run_alternates, build_disk_space_alternate_attempts,
}
use sandbox_tester.Groups.ResourceLimits.{
  cpu_count_test, cpu_count_run_shell, cpu_count_shell_result, cpu_count_run_tool,
  cpu_count_tool_result, cpu_count_run_alternates, build_cpu_count_alternate_attempts,
}
use sandbox_tester.Groups.Redacted.{
  to_thread_holds, HasRedacted, AlternatesRedacted, invocation_result-HasRedacted, bind-Returns,
  try_except_holds, if_holds,
}
use sandbox_tester.Groups.Redacted.Attempts.{
  shell_exception-HasRedacted, tool_exception-HasRedacted,
  run_program_alternate_attempts-AlternatesRedacted, run_program_alternate_attempt-AttemptRedacted,
}
use sandbox_tester.Groups.Attempts.{run_program_alternate_attempt}

module _ {World A : Type 0} (action : Action World A) (result : A → InvocationResult)
    (h : (a : A) → HasRedacted (result a)) where
  -- A method that makes its result of what an action returns.
  pub shell_method-HasRedacted :
      (w : World) → HasRedacted (try_except (action >>= λ a. pure (result a)) shell_exception w).1
  shell_method-HasRedacted =
      try_except_holds HasRedacted _ shell_exception
        (bind-Returns HasRedacted action _ (λ a w. h a)) shell_exception-HasRedacted

  pub tool_method-HasRedacted :
      (w : World) → HasRedacted (try_except (action >>= λ a. pure (result a)) tool_exception w).1
  tool_method-HasRedacted =
      try_except_holds HasRedacted _ tool_exception (bind-Returns HasRedacted action _ (λ a w. h a))
        tool_exception-HasRedacted

module _ {World : Type 0} (machine : Machine World) (operating_system : OperatingSystem) where
  pub disk_space_test-TestHolds :
      (working_directory drive : String)
      → TestHolds HasRedacted AlternatesRedacted
          (disk_space_test operating_system working_directory drive machine)
  unfolding disk_space_run_shell disk_space_run_tool disk_space_run_alternates
      disk_space_shell_result
  disk_space_test-TestHolds working_directory drive = (
    shell_method-HasRedacted (machine.run _) _ (λ completed.
        if_holds HasRedacted (is_code 0 completed.returncode) _ _
          (invocation_result-HasRedacted _ _ _) (invocation_result-HasRedacted _ _ _)),
    tool_method-HasRedacted (machine.disk_usage working_directory) _
        (λ usage. invocation_result-HasRedacted _ _ _),
    to_thread_holds AlternatesRedacted machine _ (
        run_program_alternate_attempts-AlternatesRedacted (run_program_alternate_attempt machine)
          (run_program_alternate_attempt-AttemptRedacted machine)
          (build_disk_space_alternate_attempts operating_system working_directory drive
            operating_system)),
  )

  cpu_count_tool_result-HasRedacted : (count : Option ℕ) → HasRedacted (cpu_count_tool_result count)
  unfolding cpu_count_tool_result
  cpu_count_tool_result-HasRedacted none = invocation_result-HasRedacted _ _ _
  cpu_count_tool_result-HasRedacted (some n) = invocation_result-HasRedacted _ _ _

  pub cpu_count_test-TestHolds :
      TestHolds HasRedacted AlternatesRedacted (cpu_count_test operating_system machine)
  unfolding cpu_count_run_shell cpu_count_run_tool cpu_count_run_alternates cpu_count_shell_result
  cpu_count_test-TestHolds = (
    shell_method-HasRedacted (machine.run _) _ (λ completed.
        if_holds HasRedacted (is_code 0 completed.returncode) _ _
          (invocation_result-HasRedacted _ _ _) (invocation_result-HasRedacted _ _ _)),
    tool_method-HasRedacted machine.cpu_count _ cpu_count_tool_result-HasRedacted,
    to_thread_holds AlternatesRedacted machine _ (
        run_program_alternate_attempts-AlternatesRedacted (run_program_alternate_attempt machine)
          (run_program_alternate_attempt-AttemptRedacted machine)
          (build_cpu_count_alternate_attempts operating_system)),
  )
