-- ===== src/Docker/Script.antt =====
-- The script that the container runs, and the directories that it names, from
-- src/docker_sandbox/sandbox_container.py.
pub mod Words
use sandbox_tester.Common.{
  String, ◌<>◌, Bool, Option, none, some, List, [], ◌∷◌, ◌++◌, if◌then◌else◌, Result, or_default,
}
use sandbox_tester.Common.Format.{format}
use sandbox_tester.Common.Shell.{quote, quote_all}
use sandbox_tester.Common.Text.{is_slash, rstrip, join}
use sandbox_tester.Docker.Constants.{
  allowed_file_content, denied_file_content, hidden_allowed_file_content,
  hidden_denied_file_content,
}
use sandbox_tester.Docker.Models.{DockerConfiguration}

unfoldable pub build_remote_run_directory : DockerConfiguration → String → String
unfolding rstrip
build_remote_run_directory c run_id = rstrip is_slash c.profile.remote_run_root <> ("/" <> run_id)

unfoldable pub format_directory_template : String → String → Result String
unfolding format
format_directory_template template remote_run_directory =
    format "remote_run_directory" remote_run_directory template

unfoldable pub build_allowed_directory : DockerConfiguration → String → Result String
build_allowed_directory c remote_run_directory =
    format_directory_template c.profile.allowed_directory_template remote_run_directory

unfoldable pub build_denied_directory : DockerConfiguration → String → Result String
build_denied_directory c remote_run_directory =
    format_directory_template c.profile.denied_directory_template remote_run_directory

unfoldable pub build_write_text_command : String → String → String
unfolding quote
build_write_text_command path content = "printf '%s' " <> (quote content <> (" > " <> quote path))

unfoldable pub build_sandbox_command_arguments : Option String → List String
build_sandbox_command_arguments none =
    "python" ∷ "-m" ∷ "sandbox_tester" ∷ "--config" ∷ "/sandbox-output/config.json" ∷ []
build_sandbox_command_arguments (some landlock_policy_path) =
    "python" ∷ "-m" ∷ "docker_sandbox.landlock_runner" ∷ "--config" ∷ "/sandbox-output/config.json"
    ∷ "--policy" ∷ landlock_policy_path ∷ []

-- `lines.insert(-1, line)`: before the last line.
abbrev pub insert_before_last : String → List String → List String
insert_before_last line [] = line ∷ []
insert_before_last line (x ∷ []) = line ∷ x ∷ []
insert_before_last line (x ∷ y ∷ ys) = x ∷ insert_before_last line (y ∷ ys)

-- The arguments of the sandbox tester, with the two flags.
unfoldable pub sandbox_arguments : Bool → Bool → Option String → List String
unfolding build_sandbox_command_arguments
sandbox_arguments verbose serialize_evidence landlock_policy_path =
    (build_sandbox_command_arguments landlock_policy_path
      ++ (if verbose then "--verbose" ∷ [] else []))
    ++ (if serialize_evidence then "--serialize-evidence" ∷ [] else [])

unfoldable pub container_script_lines : String → String → Bool → List String → List String
unfolding quote quote_all build_write_text_command join
container_script_lines allowed_directory denied_directory create_denied_fixture arguments =
    let allowed_child_directory = allowed_directory <> "/allowed" in
    let denied_child_directory = denied_directory <> "/denied" in
    let lines : List String =
      "set -eu"
      ∷ "if [ -n \"${HOME:-}\" ]; then mkdir -p \"$HOME\"; fi"
      ∷ "if [ -n \"${XDG_CACHE_HOME:-}\" ]; then mkdir -p \"$XDG_CACHE_HOME\"; fi"
      ∷ "if [ -n \"${XDG_CONFIG_HOME:-}\" ]; then mkdir -p \"$XDG_CONFIG_HOME\"; fi"
      ∷ "if [ -n \"${GNUPGHOME:-}\" ]; then mkdir -p \"$GNUPGHOME\"; chmod 700 \"$GNUPGHOME\"; fi"
      ∷ "if [ -n \"${XDG_RUNTIME_DIR:-}\" ]; then mkdir -p \"$XDG_RUNTIME_DIR\"; chmod 700 \"$XDG_RUNTIME_DIR\"; fi"
      ∷ ("mkdir -p " <> quote allowed_child_directory)
      ∷ build_write_text_command (allowed_child_directory <> "/allowed.txt") allowed_file_content
      ∷ build_write_text_command (allowed_child_directory <> "/.hidden") hidden_allowed_file_content
      ∷ join " " (quote_all arguments)
      ∷ [] in
    if create_denied_fixture
    then insert_before_last
        (build_write_text_command (denied_child_directory <> "/.hidden") hidden_denied_file_content)
        (insert_before_last
          (build_write_text_command (denied_child_directory <> "/denied.txt") denied_file_content)
          (insert_before_last ("mkdir -p " <> quote denied_child_directory) lines))
    else lines

unfoldable pub build_container_script :
    String → Option String → Option String → Bool → Bool → Bool → Option String → String
unfolding container_script_lines sandbox_arguments
build_container_script remote_run_directory allowed_directory denied_directory create_denied_fixture
      verbose serialize_evidence landlock_policy_path =
    join "\n" (
      container_script_lines (or_default allowed_directory (remote_run_directory <> "/allowed"))
        (or_default denied_directory (remote_run_directory <> "/denied")) create_denied_fixture
        (sandbox_arguments verbose serialize_evidence landlock_policy_path))
