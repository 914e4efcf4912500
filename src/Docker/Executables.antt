-- ===== src/Docker/Executables.antt =====
-- The executables that a profile denies: validation, targets and stubs in
-- src/docker_sandbox/sandbox_container.py. An exception holds its message up to the value that it quotes.
pub mod Laws
use sandbox_tester.Common.{
  Char, code, String, ◌<>◌, Bool, true, false, not, ◌&&◌, ◌||◌, List, [], ◌∷◌, ◌++◌, ◌==◌,
  string_eq, number_eq, contains, if◌then◌else◌, keep_if, fromkeys, traverse, Result, ok, err,
  Error, value_error, ◌>>=◌, ◌>>◌,
}
use sandbox_tester.Common.PosixPath.{FilePath}
use sandbox_tester.Common.Shell.{quote}
use sandbox_tester.Common.Text.{is_slash, any_char, strip, replace}
use sandbox_tester.Docker.Constants.{
  desktop_automation_executable_paths, denied_executable_source_directory,
  readonly_persistence_source_directory,
}
use sandbox_tester.Docker.Models.{DockerProfile, DockerConfiguration}
use sandbox_tester.Common.PosixPath

abbrev is_backslash : Char → Bool
is_backslash c = code c == 92

unfoldable pub is_invalid_name : String → Bool
unfolding any_char string_eq number_eq
is_invalid_name name = name == "" || any_char is_slash name || any_char is_backslash name

unfoldable pub validate_executable_name : String → Result (Unit {0})
validate_executable_name name =
    if is_invalid_name name then err (value_error "Invalid executable name: ") else ok tt

-- `not path.is_absolute() or path.name in {"", ".", ".."}`
unfoldable pub is_invalid_path : String → Bool
unfolding PosixPath.parse PosixPath.is_absolute PosixPath.name string_eq
is_invalid_path text =
    let path = PosixPath.parse text in
    not (PosixPath.is_absolute path) || contains ("" ∷ "." ∷ ".." ∷ []) (PosixPath.name path)

unfoldable pub validate_executable_path : String → Result (Unit {0})
validate_executable_path path =
    if is_invalid_path path then err (value_error "Invalid executable path: ") else ok tt

unfoldable pub validate_container_directory : String → Result (Unit {0})
validate_container_directory directory =
    if is_invalid_path directory then err (value_error "Invalid container directory: ") else ok tt

-- `text.strip("/").replace("/", "__")`
unfoldable pub flatten_path : String → String
unfolding strip replace
flatten_path text = replace is_slash "__" (strip is_slash text)

unfoldable pub build_denied_executable_stub_name : String → Result String
build_denied_executable_stub_name target = do
  validate_executable_path target
  ok (flatten_path target)

unfoldable pub build_denied_executable_stub_text : String → String
unfolding quote
build_denied_executable_stub_text name =
    "#!/bin/sh\necho " <> (quote name <> ": denied by sandbox profile >&2\nexit 127\n")

unfoldable pub build_readonly_persistence_source_directory : FilePath → String → FilePath
unfolding PosixPath.child flatten_path
build_readonly_persistence_source_directory run_directory target =
    PosixPath.child (PosixPath.child run_directory readonly_persistence_source_directory)
      (flatten_path target)

-- The body of the loop over the executable names.
unfoldable pub name_target : String → Result String
name_target name = do validate_executable_name name; ok ("/usr/bin/" <> name)

-- The body of the loop over the executable paths.
unfoldable pub path_target : String → Result String
path_target path = do validate_executable_path path; ok path

-- Images without the desktop tools have nothing there to mount a stub on.
abbrev pub keep_target : Bool → String → Bool
keep_target remove_desktop_automation_tools target =
    not (remove_desktop_automation_tools && contains desktop_automation_executable_paths target)

unfoldable pub get_denied_executable_targets : DockerConfiguration → Result (List String)
get_denied_executable_targets c = do
  names ← traverse name_target c.profile.denied_executables
  paths ← traverse path_target c.profile.denied_executable_paths
  ok (fromkeys (keep_if (keep_target c.profile.remove_desktop_automation_tools) (names ++ paths)))

-- The option that mounts the stub of one target over it.
unfoldable pub denied_executable_mount : FilePath → String → Result String
denied_executable_mount run_directory target = do
  stub ← build_denied_executable_stub_name target
  let source =
      PosixPath.child (PosixPath.child run_directory denied_executable_source_directory) stub
  ok ("type=bind,source=" <> (PosixPath.to_text source <> (",target=" <> (target <> ",readonly"))))

-- `options.extend(["--mount", mount])`, for each mount.
unfoldable pub mount_options : List String → List String
mount_options [] = []
mount_options (m ∷ ms) = "--mount" ∷ m ∷ mount_options ms

unfoldable pub build_denied_executable_mount_options :
    DockerConfiguration → FilePath → Result (List String)
build_denied_executable_mount_options c run_directory = do
  targets ← get_denied_executable_targets c
  mounts ← traverse (denied_executable_mount run_directory) targets
  ok (mount_options mounts)
