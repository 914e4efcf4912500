-- ===== src/Groups/Logs/Sources.antt =====
-- What the tests of src/sandbox_tester/group_22.py write and read.
use mathlib.Core.List.{map}
use sandbox_tester.Common.{String, ◌<>◌, true, List, [], ◌∷◌, if◌then◌else◌}
use sandbox_tester.Common.Text.{strip, is_space, decimal, join}
use sandbox_tester.Common.PosixPath.{FilePath}
use sandbox_tester.Engine.Context.{OperatingSystem, windows, linux}
use sandbox_tester.Groups.Machine.{
  file_not_found, Action, Completed, Machine, pure, raise, utf8_size, ◌>>=◌, ◌>>◌,
}
use sandbox_tester.Groups.Logs.Commands.{
  append_log_command, system_log_command, security_log_command,
}
use sandbox_tester.Common.PosixPath

abbrev pub linux_system_log_candidates : List FilePath
linux_system_log_candidates =
    PosixPath.parse "/var/log/syslog" ∷ PosixPath.parse "/var/log/messages" ∷ []

abbrev pub linux_security_log_candidates : List FilePath
linux_security_log_candidates =
    PosixPath.parse "/var/log/auth.log" ∷ PosixPath.parse "/var/log/secure" ∷ []

abbrev pub windows_event_log_directory : FilePath
windows_event_log_directory = PosixPath.parse "C:/Windows/System32/winevt/Logs"

module _ {World : Type 0} (machine : Machine World) where
  -- `_build_log_line`
  unfoldable pub build_log_line : String → Action World String
  build_log_line kind = do
    timestamp ← machine.timestamp
    entry_id ← machine.fresh_id
    pure (timestamp <> (" sandbox-tester " <> (kind <> (" " <> entry_id))))

  -- `f"path={log_file}; size={log_file.stat().st_size}"`
  unfoldable pub path_and_size : FilePath → Action World String
  path_and_size file = do
    size ← machine.file_size file
    pure ("path=" <> (machine.path_text file <> ("; size=" <> decimal size)))

  unfoldable pub write_application_log_entry_with_shell :
      OperatingSystem → FilePath → Action World Completed
  unfolding build_log_line append_log_command
  write_application_log_entry_with_shell operating_system log_file = do
    line ← build_log_line "shell"
    machine.run (record {
      command = append_log_command operating_system line (machine.path_text log_file);
      timeout = 10;
      replace = true;
    })

  unfoldable pub write_application_log_entry_with_tool : FilePath → Action World String
  unfolding build_log_line path_and_size
  write_application_log_entry_with_tool log_file = do
    line ← build_log_line "tool"
    machine.append_text log_file (line <> "\n")
    path_and_size log_file

  -- `_run_log_command`
  unfoldable pub run_log_command : List String → Action World Completed
  run_log_command command = machine.run (record { command = command; timeout = 20; replace = true })

  unfoldable pub read_system_logs_with_shell : OperatingSystem → Action World Completed
  unfolding run_log_command system_log_command
  read_system_logs_with_shell operating_system =
      run_log_command (system_log_command operating_system)

  unfoldable pub read_security_logs_with_shell : OperatingSystem → Action World Completed
  unfolding run_log_command security_log_command
  read_security_logs_with_shell operating_system =
      run_log_command (security_log_command operating_system)

  unfoldable pub read_binary_log_header : FilePath → Action World String
  read_binary_log_header path = do
    bytes ← machine.read_bytes path 512
    size ← machine.file_size path
    pure (
        "path="
        <> (machine.path_text path
            <> ("; bytes_read=" <> (decimal bytes <> ("; size=" <> decimal size)))))

  abbrev pub sampled : FilePath → Action World String
  sampled path = do
    line ← machine.read_first_line path
    pure (
        "path="
        <> (machine.path_text path
            <> ("; bytes_read="
                <> (decimal (utf8_size (strip is_space line)) <> "; line_count=1"))))

  abbrev pub no_supported_log_files : List FilePath → String
  no_supported_log_files paths =
      "FileNotFoundError('No supported log files found: "
      <> (join ", " (map machine.path_text paths) <> "')")

  -- The loop of `_read_text_log_sample` over the paths that are left, of all those given.
  unfoldable pub sample_first : List FilePath → List FilePath → Action World String
  unfolding utf8_size strip join
  sample_first paths [] = raise (file_not_found (no_supported_log_files paths))
  sample_first paths (path ∷ rest) =
      let others = sample_first paths rest in
      do found ← machine.exists path; if found then sampled path else others

  unfoldable pub read_text_log_sample : List FilePath → Action World String
  unfolding sample_first
  read_text_log_sample paths = sample_first paths paths

  unfoldable pub read_system_logs_with_tool : OperatingSystem → Action World String
  unfolding read_binary_log_header read_text_log_sample
  read_system_logs_with_tool windows =
      read_binary_log_header (PosixPath.child windows_event_log_directory "System.evtx")
  read_system_logs_with_tool linux = read_text_log_sample linux_system_log_candidates

  unfoldable pub read_security_logs_with_tool : OperatingSystem → Action World String
  unfolding read_binary_log_header read_text_log_sample
  read_security_logs_with_tool windows =
      read_binary_log_header (PosixPath.child windows_event_log_directory "Security.evtx")
  read_security_logs_with_tool linux = read_text_log_sample linux_security_log_candidates
