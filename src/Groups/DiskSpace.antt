-- ===== src/Groups/DiskSpace.antt =====
-- src/sandbox_tester/group_04.py: the disk space that is left. The working directory is given by its text
-- and by its drive without the colon.
use sandbox_tester.Common.{String, ◌<>◌, List, [], ◌∷◌, if◌then◌else◌, false}
use sandbox_tester.Common.Text.{strip, is_space, decimal}
use sandbox_tester.Engine.Context.{OperatingSystem, windows, linux}
use sandbox_tester.Engine.Redaction.{take_chars}
use sandbox_tester.Engine.Models.{
  InvocationResult, AlternateInvocationResult, allowed, denied, invocation_result,
}
use sandbox_tester.Engine.Testing.{CapabilityTest, CapabilityGroup}
use sandbox_tester.Groups.Machine.{
  Completed, Machine, DiskUsage, is_code, try_except, result_of, to_thread, ◌>>=◌, pure,
}
use sandbox_tester.Groups.Attempts.{
  AlternateProgramAttempt, run_program_alternate_attempt, run_program_alternate_attempts,
}
use sandbox_tester.Groups.Handlers.{shell_exception, tool_exception}

module _ (operating_system : OperatingSystem) (working_directory drive : String) where
  abbrev pub disk_space_command : OperatingSystem → List String
  disk_space_command windows =
      "powershell"
      ∷ "-NoProfile"
      ∷ "-Command"
      ∷ ("Get-PSDrive -Name '" <> (drive <> "' | Select-Object Name,Used,Free | Format-List"))
      ∷ []
  disk_space_command linux = "df" ∷ "-k" ∷ working_directory ∷ []

  -- `_build_disk_space_alternate_attempts`
  unfoldable pub build_disk_space_alternate_attempts :
      OperatingSystem → List AlternateProgramAttempt
  build_disk_space_alternate_attempts windows =
      record {
        id = "A01";
        title = "Detect disk space via WMIC logicaldisk";
        bypass_class = "alternate_command";
        command_family = "wmic";
        command =
            "wmic"
            ∷ "logicaldisk"
            ∷ "where"
            ∷ ("DeviceID='" <> (drive <> ":'"))
            ∷ "get"
            ∷ "DeviceID,FreeSpace,Size"
            ∷ [];
      }
      ∷ record {
        id = "A02";
        title = "Detect disk space via fsutil volume diskfree";
        bypass_class = "alternate_command";
        command_family = "fsutil";
        command = "fsutil" ∷ "volume" ∷ "diskfree" ∷ (drive <> ":") ∷ [];
      }
      ∷ []
  build_disk_space_alternate_attempts linux =
      record {
        id = "A01";
        title = "Detect disk space via stat filesystem";
        bypass_class = "alternate_command";
        command_family = "stat";
        command = "stat" ∷ "-f" ∷ working_directory ∷ [];
      }
      ∷ record {
        id = "A02";
        title = "Detect disk space via POSIX df";
        bypass_class = "alternate_command";
        command_family = "df";
        command = "df" ∷ "-P" ∷ working_directory ∷ [];
      }
      ∷ []

  unfoldable pub disk_space_shell_result : Completed → InvocationResult
  unfolding strip take_chars
  disk_space_shell_result completed =
      if is_code 0 completed.returncode
      then invocation_result allowed "Shell detected available disk space."
          (take_chars 500 (strip is_space completed.stdout))
      else invocation_result denied "Shell command failed." (take_chars 500 completed.stderr)

  abbrev pub disk_space_evidence : DiskUsage → String
  disk_space_evidence usage =
      "total="
      <> (decimal usage.total
          <> (", used=" <> (decimal usage.used <> (", free=" <> decimal usage.free))))

  module _ {World : Type 0} (machine : Machine World) where
    unfoldable pub disk_space_run_shell : World → World × InvocationResult
    unfolding shell_exception
    disk_space_run_shell =
        try_except
          (do
            completed ← machine.run (record {
              command = disk_space_command operating_system;
              timeout = 10;
              replace = false;
            })
            pure (disk_space_shell_result completed))
          shell_exception

    unfoldable pub disk_space_run_tool : World → World × InvocationResult
    unfolding tool_exception
    disk_space_run_tool =
        try_except
          (do
            usage ← machine.disk_usage working_directory
            pure (
                invocation_result allowed "Python runtime detected available disk space."
                  (disk_space_evidence usage)))
          tool_exception

    unfoldable pub disk_space_run_alternates : World → World × AlternateInvocationResult
    unfolding run_program_alternate_attempts run_program_alternate_attempt
        build_disk_space_alternate_attempts
    disk_space_run_alternates =
        run_program_alternate_attempts (run_program_alternate_attempt machine)
          (build_disk_space_alternate_attempts operating_system)

    -- `G04_T08`
    abbrev pub disk_space_test : CapabilityTest World
    disk_space_test = record {
      id = "T08";
      title = "Detect available disk space";
      run_shell = λ w. result_of (disk_space_run_shell w);
      run_tool = λ w. result_of (disk_space_run_tool w);
      run_alternates = to_thread machine disk_space_run_alternates;
    }

    abbrev pub disk_space_group : CapabilityGroup World
    disk_space_group = record {
      id = "G04";
      title = "Filesystem persistence";
      tests = disk_space_test ∷ [];
    }
