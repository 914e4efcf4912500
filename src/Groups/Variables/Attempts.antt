-- ===== src/Groups/Variables/Attempts.antt =====
-- The alternate attempts of src/sandbox_tester/group_05.py on names and on the search path.
use sandbox_tester.Common.{List, [], ◌∷◌}
use sandbox_tester.Engine.Context.{OperatingSystem, windows, linux}
use sandbox_tester.Groups.Attempts.{AlternateProgramAttempt}

-- `_build_environment_name_alternate_attempts`
unfoldable pub build_environment_name_alternate_attempts :
    OperatingSystem → List AlternateProgramAttempt
build_environment_name_alternate_attempts windows =
    record {
      id = "A01";
      title = "List environment variable names via cmd set";
      bypass_class = "alternate_command";
      command_family = "cmd/set";
      command =
          "cmd" ∷ "/v:on" ∷ "/c" ∷ "for /f tokens^=1^ delims^=^= %A in ('set') do @echo %A" ∷ [];
    }
    ∷ record {
      id = "A02";
      title = "List environment variable names via PowerShell .NET";
      bypass_class = "alternate_command";
      command_family = "powershell/dotnet-environment";
      command =
          "powershell" ∷ "-NoProfile" ∷ "-NonInteractive" ∷ "-Command"
          ∷ "[Environment]::GetEnvironmentVariables('Process').Keys" ∷ [];
    }
    ∷ []
build_environment_name_alternate_attempts linux =
    record {
      id = "A01";
      title = "List environment variable names via printenv";
      bypass_class = "alternate_command";
      command_family = "printenv/sed";
      command = "sh" ∷ "-c" ∷ "printenv | sed 's/=.*//'" ∷ [];
    }
    ∷ record {
      id = "A02";
      title = "List environment variable names via bash";
      bypass_class = "alternate_command";
      command_family = "bash/compgen";
      command = "bash" ∷ "-c" ∷ "compgen -e" ∷ [];
    }
    ∷ record {
      id = "A03";
      title = "List environment variable names via proc environ";
      bypass_class = "alternate_command";
      command_family = "procfs";
      command = "sh" ∷ "-c" ∷ "tr '\\0' '\\n' < /proc/self/environ | cut -d= -f1" ∷ [];
    }
    ∷ []

-- `_build_path_variable_alternate_attempts`
unfoldable pub build_path_variable_alternate_attempts :
    OperatingSystem → List AlternateProgramAttempt
build_path_variable_alternate_attempts windows =
    record {
      id = "A01";
      title = "Read path variable via cmd expansion";
      bypass_class = "alternate_command";
      command_family = "cmd/echo";
      command = "cmd" ∷ "/c" ∷ "echo %PATH%" ∷ [];
    }
    ∷ record {
      id = "A02";
      title = "Read path variable via cmd path command";
      bypass_class = "alternate_command";
      command_family = "cmd/path";
      command = "cmd" ∷ "/c" ∷ "path" ∷ [];
    }
    ∷ record {
      id = "A03";
      title = "Read persistent path values via registry";
      bypass_class = "alternate_command";
      command_family = "reg";
      command =
          "cmd" ∷ "/c"
          ∷ "reg query \"HKCU\\Environment\" /v Path & reg query \"HKLM\\SYSTEM\\CurrentControlSet\\Control\\Session Manager\\Environment\" /v Path & exit /b 0"
          ∷ [];
    }
    ∷ []
build_path_variable_alternate_attempts linux =
    record {
      id = "A01";
      title = "Read path variable via printenv";
      bypass_class = "alternate_command";
      command_family = "printenv";
      command = "printenv" ∷ "PATH" ∷ [];
    }
    ∷ record {
      id = "A02";
      title = "Read path variable via shell expansion";
      bypass_class = "alternate_command";
      command_family = "sh/printf";
      command = "sh" ∷ "-c" ∷ "printf \"%s\" \"$PATH\"" ∷ [];
    }
    ∷ record {
      id = "A03";
      title = "Read path variable via proc environ";
      bypass_class = "alternate_command";
      command_family = "procfs";
      command = "sh" ∷ "-c" ∷ "tr '\\0' '\\n' < /proc/self/environ | sed -n 's/^PATH=//p'" ∷ [];
    }
    ∷ []
