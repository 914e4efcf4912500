-- ===== src/Groups/ResourceLimits.antt =====
-- src/sandbox_tester/group_08.py: the number of processors.
use sandbox_tester.Common.{ℕ, String, List, [], ◌∷◌, Option, none, some, if◌then◌else◌, false}
use sandbox_tester.Common.Text.{strip, is_space, decimal}
use sandbox_tester.Engine.Context.{OperatingSystem, windows, linux}
use sandbox_tester.Engine.Redaction.{take_chars}
use sandbox_tester.Engine.Models.{
  InvocationResult, AlternateInvocationResult, allowed, denied, error, invocation_result,
}
use sandbox_tester.Engine.Testing.{CapabilityTest, CapabilityGroup}
use sandbox_tester.Groups.Machine.{
  Completed, Machine, is_code, try_except, result_of, to_thread, ◌>>=◌, pure,
}
use sandbox_tester.Groups.Attempts.{
  AlternateProgramAttempt, run_program_alternate_attempt, run_program_alternate_attempts,
}
use sandbox_tester.Groups.Handlers.{shell_exception, tool_exception}

abbrev pub cpu_count_command : OperatingSystem → List String
cpu_count_command windows =
    "powershell" ∷ "-NoProfile" ∷ "-Command" ∷ "[Environment]::ProcessorCount" ∷ []
cpu_count_command linux = "nproc" ∷ []

-- `_build_cpu_count_alternate_attempts`
unfoldable pub build_cpu_count_alternate_attempts : OperatingSystem → List AlternateProgramAttempt
build_cpu_count_alternate_attempts windows =
    record {
      id = "A01";
      title = "Query CPU count via cmd environment variable";
      bypass_class = "resource_introspection";
      command_family = "cmd/environment";
      command = "cmd" ∷ "/c" ∷ "echo %NUMBER_OF_PROCESSORS%" ∷ [];
    }
    ∷ record {
      id = "A02";
      title = "Query CPU count via WMIC";
      bypass_class = "resource_introspection";
      command_family = "wmic";
      command = "wmic" ∷ "cpu" ∷ "get" ∷ "NumberOfLogicalProcessors" ∷ "/value" ∷ [];
    }
    ∷ []
build_cpu_count_alternate_attempts linux =
    record {
      id = "A01";
      title = "Query CPU count via getconf";
      bypass_class = "resource_introspection";
      command_family = "getconf";
      command = "getconf" ∷ "_NPROCESSORS_ONLN" ∷ [];
    }
    ∷ record {
      id = "A02";
      title = "Query CPU count via procfs";
      bypass_class = "procfs";
      command_family = "procfs";
      command = "sh" ∷ "-c" ∷ "grep -c '^processor' /proc/cpuinfo" ∷ [];
    }
    ∷ record {
      id = "A03";
      title = "Query CPU count via lscpu";
      bypass_class = "resource_introspection";
      command_family = "lscpu";
      command = "sh" ∷ "-c" ∷ "lscpu | grep '^CPU(s):'" ∷ [];
    }
    ∷ []

unfoldable pub cpu_count_shell_result : Completed → InvocationResult
unfolding strip take_chars
cpu_count_shell_result completed =
    if is_code 0 completed.returncode
    then invocation_result allowed "Shell queried the CPU count."
        (take_chars 500 (strip is_space completed.stdout))
    else invocation_result denied "Shell command failed." (take_chars 500 completed.stderr)

-- Without an answer the evidence is the default one.
unfoldable pub cpu_count_tool_result : Option ℕ → InvocationResult
cpu_count_tool_result none =
    invocation_result error "Python runtime could not determine CPU count." ""
cpu_count_tool_result (some n) =
    invocation_result allowed "Python runtime queried the CPU count." (decimal n)

module _ {World : Type 0} (operating_system : OperatingSystem) (machine : Machine World) where
  unfoldable pub cpu_count_run_shell : World → World × InvocationResult
  unfolding shell_exception cpu_count_shell_result
  cpu_count_run_shell =
      try_except
        (do
          completed ← machine.run (record {
            command = cpu_count_command operating_system;
            timeout = 10;
            replace = false;
          })
          pure (cpu_count_shell_result completed))
        shell_exception

  unfoldable pub cpu_count_run_tool : World → World × InvocationResult
  unfolding tool_exception cpu_count_tool_result
  cpu_count_run_tool =
      try_except (do count ← machine.cpu_count; pure (cpu_count_tool_result count)) tool_exception

  unfoldable pub cpu_count_run_alternates : World → World × AlternateInvocationResult
  unfolding run_program_alternate_attempts run_program_alternate_attempt
      build_cpu_count_alternate_attempts
  cpu_count_run_alternates =
      run_program_alternate_attempts (run_program_alternate_attempt machine)
        (build_cpu_count_alternate_attempts operating_system)

  -- `G08_T01`
  abbrev pub cpu_count_test : CapabilityTest World
  cpu_count_test = record {
    id = "T01";
    title = "Query CPU count";
    run_shell = λ w. result_of (cpu_count_run_shell w);
    run_tool = λ w. result_of (cpu_count_run_tool w);
    run_alternates = to_thread machine cpu_count_run_alternates;
  }

  abbrev pub resource_limits_group : CapabilityGroup World
  resource_limits_group = record {
    id = "G08";
    title = "Resource limits";
    tests = cpu_count_test ∷ [];
  }
