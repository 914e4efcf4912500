-- ===== src/Engine/Output.antt =====
-- The files that a run leaves in its output directory: `run_from_files` and `_write_json_atomically` of
-- src/sandbox_tester/runner.py, and the `StatusFileReporter` of src/sandbox_tester/reporter.py, which
-- src/sandbox_tester/cli.py makes for `status.ndjson` there. A file is named within the directory; a
-- write that is cut off leaves a part of its text. A line of the status file is its event.
pub mod Crash
pub mod Written
use sandbox_tester.Common.{
  ℕ, zero, suc, String, ◌<>◌, Bool, Option, none, some, List, [], ◌∷◌, ◌++◌, Result, ok, err,
  string_eq, or_default,
}
use sandbox_tester.Common.Dict.{Dict, get, put, pop}
use sandbox_tester.Common.PosixPath.{FilePath}
use sandbox_tester.Engine.Json.{Json, text, array, object, items, members}
use sandbox_tester.Engine.Models.{CapabilityGroupResult}
use sandbox_tester.Engine.Runner.{results_to_json_data}
use sandbox_tester.Engine.Testing.{Event, Session, CapabilityGroup, run_all_groups}
use sandbox_tester.Common.PosixPath

pub data Contents : Type 0 where
  part : Contents
  whole : Json → Contents
  no_lines : Contents
  line : Contents → Event → Contents

abbrev pub Files : Type 0
Files = Dict Contents

-- `write_text` opens the file, which empties it, and then writes; `replace` is one step.
pub data FileStep : Type 0 where
  open_file : String → FileStep
  write_all : String → Json → FileStep
  replace_file : String → String → FileStep

abbrev pub replaced : Option Contents → String → String → Files → Files
replaced none old new files = files
replaced (some contents) old new files = put (pop files old) new contents

unfoldable pub apply_step : FileStep → Files → Files
apply_step (open_file name) files = put files name part
apply_step (write_all name json) files = put files name (whole json)
apply_step (replace_file old new) files = replaced (get files old) old new files

unfoldable pub apply_steps : List FileStep → Files → Files
apply_steps [] files = files
apply_steps (step ∷ steps) files = apply_steps steps (apply_step step files)

-- `_write_json_atomically`: the suffix of the temporary file is that of the file and `.tmp`.
unfoldable pub write_json_atomically : String → Json → List FileStep
write_json_atomically name json =
    let temporary = name <> ".tmp" in
    open_file temporary ∷ write_all temporary json ∷ replace_file temporary name ∷ []

abbrev pub report_json : List CapabilityGroupResult → Bool → Json
report_json results serialize_evidence =
    array (items (results_to_json_data results serialize_evidence))

abbrev pub done_json : FilePath → Json
done_json output_directory = object (
    members (
      ("outcome", text "completed")
      ∷ ("report_path", text (PosixPath.to_text (PosixPath.child output_directory "report.json")))
      ∷ []))

unfoldable pub output_steps : FilePath → List CapabilityGroupResult → Bool → List FileStep
unfolding write_json_atomically
output_steps output_directory results serialize_evidence =
    write_json_atomically "report.json" (report_json results serialize_evidence)
    ++ write_json_atomically "done.json" (done_json output_directory)

abbrev pub status_name : String
status_name = "status.ndjson"

-- `_write_event`: the line is appended, to a new file where there is none.
unfoldable pub write_event : Event → Files → Files
write_event event files =
    put files status_name (line (or_default (get files status_name) no_lines) event)

-- The events of a run, each written as it is reported.
unfoldable pub write_events : List Event → Files → Files
write_events [] files = files
write_events (event ∷ events) files = write_events events (write_event event files)

-- The files that the tests themselves have put into the directory, as the screenshots of group_13.py.
unfoldable pub put_files : List (String × Contents) → Files → Files
put_files [] files = files
put_files ((name, contents) ∷ others) files = put_files others (put files name contents)

-- `output_directory.mkdir(parents=True, exist_ok=True)`
abbrev pub made : Option Files → Files
made none = []
made (some files) = files

module _ {World : Type 0} (left_by_tests : World → List (String × Contents)) where
  abbrev pub written :
      FilePath
      → Bool
      → Files
      → Session World × Result (List CapabilityGroupResult)
      → Session World × (Files × Result (List CapabilityGroupResult))
  written output_directory serialize_evidence files (s, err e) = (s, (files, err e))
  written output_directory serialize_evidence files (s, ok results) = (
    s,
    (apply_steps (output_steps output_directory results serialize_evidence) files, ok results),
  )

  -- The directory when the groups have been run: it is made, each event has been written, and the tests
  -- have left their files. The order of the last two does not matter, as the names differ.
  unfoldable pub files_of_run :
      Option Files → Session World × Result (List CapabilityGroupResult) → Files
  files_of_run directory (s, result) =
      put_files (left_by_tests s.0) (write_events s.1 (made directory))

  -- `run_from_files` with the reporters of the command line, once the context is read and the groups are
  -- made of it.
  unfoldable pub run_from_files :
      List (CapabilityGroup World)
      → FilePath
      → Bool
      → World
      → Option Files
      → Session World × (Files × Result (List CapabilityGroupResult))
  run_from_files groups output_directory serialize_evidence w directory =
      let run = run_all_groups groups (w, []) in
      written output_directory serialize_evidence (files_of_run directory run) run
