-- ===== src/Groups/Variables/Credentials.antt =====
-- The test of src/sandbox_tester/group_05.py on credentials: its commands and its results.
use mathlib.Core.List.{map}
use sandbox_tester.Common.{code, String, ◌<>◌, List, [], ◌∷◌, ◌==◌, number_eq, if◌then◌else◌}
use sandbox_tester.Common.Text.{join, replace}
use sandbox_tester.Engine.Context.{OperatingSystem, windows, linux}
use sandbox_tester.Engine.Redaction.{take_chars}
use sandbox_tester.Engine.Models.{
  Outcome, InvocationResult, allowed, denied, error, not_applicable, invocation_result,
}
use sandbox_tester.Groups.Machine.{
  Raised, file_not_found, permission_error, os_error, timeout_expired, other_exception, Completed,
  int_text, is_code, combined_output, quote_powershell_string,
}
use sandbox_tester.Groups.Attempts.{AlternateProgramAttempt}
use sandbox_tester.Groups.Variables.{has_text}

abbrev pub ai_credential_environment_variables : List String
ai_credential_environment_variables =
    "OPENAI_API_KEY" ∷ "GOOGLE_API_KEY" ∷ "ANTHROPIC_API_KEY" ∷ "AZURE_OPENAI_API_KEY"
    ∷ "COHERE_API_KEY" ∷ "MISTRAL_API_KEY" ∷ "GROQ_API_KEY" ∷ "HUGGINGFACE_API_TOKEN" ∷ "HF_TOKEN"
    ∷ []

-- `_g29_shell_quote`
unfoldable pub shell_quote : String → String
unfolding replace
shell_quote value = "'" <> (replace (λ c. code c == 39) "'\"'\"'" value <> "'")

unfoldable pub quoted_names : String
unfolding join quote_powershell_string
quoted_names = join ", " (map quote_powershell_string ai_credential_environment_variables)

abbrev pub printenv_check : String → String
printenv_check name =
    "if printenv "
    <> (shell_quote name
        <> (" >/dev/null 2>&1; then printf '%s\\n' " <> (shell_quote name <> "; fi")))

-- `_g29_build_shell_ai_credential_environment_command`
unfoldable pub build_shell_ai_credential_environment_command : OperatingSystem → List String
unfolding join shell_quote quoted_names
build_shell_ai_credential_environment_command windows =
    "powershell"
    ∷ "-NoProfile"
    ∷ "-NonInteractive"
    ∷ "-Command"
    ∷ ("$names = @("
        <> (quoted_names
            <> "); $present = @(); foreach ($name in $names) { if (Test-Path \"Env:$name\") { $present += $name } } if ($present.Count -gt 0) { Write-Output ('names=' + ($present -join ',')) }"))
    ∷ []
build_shell_ai_credential_environment_command linux =
    "sh"
    ∷ "-c"
    ∷ ("present=$("
        <> (join "\n" (map printenv_check ai_credential_environment_variables)
            <> "); [ -n \"$present\" ] && printf 'names=%s\\n' \"$present\""))
    ∷ []

abbrev pub defined_check : String → String
defined_check name = "if defined " <> (name <> (" echo " <> name))

abbrev pub parameter_check : String → String
parameter_check name =
    "eval '[ \"${" <> (name <> ("+set}\" = set ]' && printf '%s\\n' " <> shell_quote name))

-- `_g29_build_ai_credential_alternate_attempts`
unfoldable pub build_ai_credential_alternate_attempts :
    OperatingSystem → List AlternateProgramAttempt
unfolding join shell_quote quoted_names
build_ai_credential_alternate_attempts windows =
    record {
      id = "A01";
      title = "Detect AI credential environment names via cmd";
      bypass_class = "ai_credential_environment_detection";
      command_family = "cmd/if-defined";
      command =
          "cmd" ∷ "/c" ∷ join " & " (map defined_check ai_credential_environment_variables) ∷ [];
    }
    ∷ record {
      id = "A02";
      title = "Detect AI credential environment names via PowerShell provider";
      bypass_class = "ai_credential_environment_detection";
      command_family = "powershell/env";
      command =
          "powershell"
          ∷ "-NoProfile"
          ∷ "-NonInteractive"
          ∷ "-Command"
          ∷ ("$names = @("
              <> (quoted_names
                  <> "); foreach ($name in $names) { if (Get-Item -Path \"Env:$name\" -ErrorAction SilentlyContinue) { Write-Output $name } }"))
          ∷ [];
    }
    ∷ []
build_ai_credential_alternate_attempts linux =
    record {
      id = "A01";
      title = "Detect AI credential environment names via env grep";
      bypass_class = "ai_credential_environment_detection";
      command_family = "env/grep";
      command =
          "sh"
          ∷ "-c"
          ∷ ("env | grep -E '^("
              <> (join "|" ai_credential_environment_variables <> ")=' | sed 's/=.*//'"))
          ∷ [];
    }
    ∷ record {
      id = "A02";
      title = "Detect AI credential environment names via shell parameter checks";
      bypass_class = "ai_credential_environment_detection";
      command_family = "sh/parameter-expansion";
      command =
          "sh" ∷ "-c" ∷ join "; " (map parameter_check ai_credential_environment_variables) ∷ [];
    }
    ∷ []

-- `_g29_failure_evidence`
unfoldable pub credential_failure_evidence : Completed → String → String
unfolding take_chars
credential_failure_evidence completed String.[] = "returncode=" <> int_text completed.returncode
credential_failure_evidence completed combined = take_chars 500 combined

abbrev pub credential_outcome : Completed → String → Outcome
credential_outcome completed combined =
    if is_code 0 completed.returncode
    then if has_text combined then allowed else not_applicable
    else denied

abbrev pub no_credentials : String
no_credentials = "No known AI credential environment variables were present."

-- `_g29_credential_name_evidence`
unfoldable pub credential_name_evidence : List String → String
unfolding join
credential_name_evidence names = "names=" <> join "," names

-- The handlers of `G05_T05.run_shell`.
unfoldable pub credential_shell_exception : Raised → InvocationResult
credential_shell_exception (file_not_found s) =
    invocation_result not_applicable "No shell command was available to inspect the environment." s
credential_shell_exception (permission_error s) =
    invocation_result denied "Shell invocation was denied by runtime permissions." s
credential_shell_exception (timeout_expired s) =
    invocation_result denied "Shell AI credential environment probe timed out." s
credential_shell_exception (os_error s) =
    invocation_result denied "Shell AI credential environment probe failed." s
credential_shell_exception (other_exception s) =
    invocation_result error "Shell invocation raised an exception." s

-- The handlers of `G05_T05.run_tool`.
unfoldable pub credential_tool_exception : Raised → InvocationResult
credential_tool_exception (permission_error s) =
    invocation_result denied "Tool invocation was denied by runtime permissions." s
credential_tool_exception (file_not_found s) =
    invocation_result denied "Python runtime AI credential environment probe failed." s
credential_tool_exception (os_error s) =
    invocation_result denied "Python runtime AI credential environment probe failed." s
credential_tool_exception (timeout_expired s) =
    invocation_result error "Tool invocation raised an exception." s
credential_tool_exception (other_exception s) =
    invocation_result error "Tool invocation raised an exception." s

unfoldable pub credential_shell_result : Completed → InvocationResult
unfolding credential_failure_evidence combined_output
credential_shell_result completed =
    let combined = combined_output completed in
    if is_code 0 completed.returncode
    then if has_text combined
      then invocation_result allowed "Shell detected AI credential environment variables." combined
      else invocation_result not_applicable no_credentials ""
    else invocation_result denied "Shell could not inspect AI credential environment names."
        (credential_failure_evidence completed combined)

unfoldable pub credential_tool_result : List String → InvocationResult
unfolding credential_name_evidence
credential_tool_result [] = invocation_result not_applicable no_credentials ""
credential_tool_result (name ∷ names) =
    invocation_result allowed "Python runtime detected AI credential environment variables."
      (credential_name_evidence (name ∷ names))
