-- ===== src/Groups/Logs/Commands.antt =====
-- The commands of src/sandbox_tester/group_22.py.
use sandbox_tester.Common.{String, ◌<>◌, List, [], ◌∷◌}
use sandbox_tester.Common.Text.{join}
use sandbox_tester.Engine.Context.{OperatingSystem, windows, linux}
use sandbox_tester.Groups.Machine.{quote_powershell_string}

-- The command of `_write_application_log_entry_with_shell`, given the line and the text of the path.
unfoldable pub append_log_command : OperatingSystem → String → String → List String
unfolding quote_powershell_string
append_log_command windows line path =
    "powershell"
    ∷ "-NoProfile"
    ∷ "-Command"
    ∷ ("Add-Content -LiteralPath "
        <> (quote_powershell_string path
            <> (" -Value " <> (quote_powershell_string line <> " -Encoding UTF8"))))
    ∷ []
append_log_command linux line path =
    "sh" ∷ "-c" ∷ "printf '%s\\n' \"$1\" >> \"$2\"" ∷ "sandbox-tester" ∷ line ∷ path ∷ []

-- The lines of the script of `_build_linux_system_log_command`.
abbrev pub linux_system_log_script : List String
linux_system_log_script =
    "" ∷ "set -u" ∷ "if command -v journalctl >/dev/null 2>&1; then"
    ∷ "    journalctl -n 1 --no-pager >/dev/null"
    ∷ "    echo \"log_read=True; source=journalctl; line_count=1\"" ∷ "    exit $?" ∷ "fi"
    ∷ "if [ -r /var/log/syslog ]; then" ∷ "    tail -n 1 /var/log/syslog >/dev/null"
    ∷ "    echo \"log_read=True; source=/var/log/syslog; line_count=1\"" ∷ "    exit $?" ∷ "fi"
    ∷ "if [ -r /var/log/messages ]; then" ∷ "    tail -n 1 /var/log/messages >/dev/null"
    ∷ "    echo \"log_read=True; source=/var/log/messages; line_count=1\"" ∷ "    exit $?" ∷ "fi"
    ∷ "exit 127" ∷ "" ∷ []

-- The lines of the script of `_build_linux_security_log_command`.
abbrev pub linux_security_log_script : List String
linux_security_log_script =
    "" ∷ "set -u" ∷ "if [ -e /var/log/auth.log ]; then"
    ∷ "    tail -n 1 /var/log/auth.log >/dev/null"
    ∷ "    echo \"log_read=True; source=/var/log/auth.log; line_count=1\"" ∷ "    exit $?" ∷ "fi"
    ∷ "if [ -e /var/log/secure ]; then" ∷ "    tail -n 1 /var/log/secure >/dev/null"
    ∷ "    echo \"log_read=True; source=/var/log/secure; line_count=1\"" ∷ "    exit $?" ∷ "fi"
    ∷ "if command -v journalctl >/dev/null 2>&1; then"
    ∷ "    journalctl -n 1 --no-pager SYSLOG_FACILITY=10 >/dev/null"
    ∷ "    echo \"log_read=True; source=journalctl; line_count=1\"" ∷ "    exit $?" ∷ "fi"
    ∷ "exit 127" ∷ "" ∷ []

unfoldable pub build_linux_system_log_command : List String
unfolding join
build_linux_system_log_command = "sh" ∷ "-c" ∷ join "\n" linux_system_log_script ∷ []

unfoldable pub build_linux_security_log_command : List String
unfolding join
build_linux_security_log_command = "sh" ∷ "-c" ∷ join "\n" linux_security_log_script ∷ []

-- The command of `_read_system_logs_with_shell`.
unfoldable pub system_log_command : OperatingSystem → List String
unfolding build_linux_system_log_command
system_log_command windows = "wevtutil" ∷ "qe" ∷ "System" ∷ "/c:1" ∷ "/f:text" ∷ "/rd:true" ∷ []
system_log_command linux = build_linux_system_log_command

-- The command of `_read_security_logs_with_shell`.
unfoldable pub security_log_command : OperatingSystem → List String
unfolding build_linux_security_log_command
security_log_command windows = "wevtutil" ∷ "qe" ∷ "Security" ∷ "/c:1" ∷ "/f:text" ∷ "/rd:true" ∷ []
security_log_command linux = build_linux_security_log_command

-- `_log_write_command_family`, `_system_log_command_family` and `_security_log_command_family`
unfoldable pub log_write_command_family : OperatingSystem → String
log_write_command_family windows = "powershell/add-content"
log_write_command_family linux = "sh/append-redirection"

unfoldable pub system_log_command_family : OperatingSystem → String
system_log_command_family windows = "wevtutil/system"
system_log_command_family linux = "journalctl/syslog"

unfoldable pub security_log_command_family : OperatingSystem → String
security_log_command_family windows = "wevtutil/security"
security_log_command_family linux = "auth-log/journalctl"
