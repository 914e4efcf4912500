-- ===== src/Engine/Output/Written.antt =====
-- What the output directory holds after a run, with results or after an exception.
use sandbox_tester.Engine.Output.{
  Contents, whole, no_lines, line, Files, FileStep, apply_step, apply_steps, written,
  write_json_atomically, report_json, done_json, output_steps, status_name, write_event,
  write_events, put_files, made, files_of_run, run_from_files,
}
use sandbox_tester.Engine.Output.Crash.{get-write}
use sandbox_tester.Engine.Testing.{Event, Session, CapabilityGroup, run_all_groups}
use sandbox_tester.Common.{
  Result, ok, err, String, ◌≡◌, refl, ◌∙◌, Bool, true, false, not, ◌&&◌, Option, some, List, [],
  ◌∷◌, ◌++◌, ◌==◌, string_eq, or_default, arith,
}
use sandbox_tester.Common.Dict.{get, put, get-put}
use sandbox_tester.Common.PosixPath.{FilePath}
use sandbox_tester.Engine.Models.{CapabilityGroupResult}

apply_steps-append :
    (steps rest : List FileStep) (files : Files)
    → apply_steps (steps ++ rest) files ≡ apply_steps rest (apply_steps steps files)
unfolding apply_steps
apply_steps-append [] rest files = refl
apply_steps-append (step ∷ steps) rest files = apply_steps-append steps rest (apply_step step files)

get-output_steps :
    (directory : FilePath) (results : List CapabilityGroupResult) (serialize_evidence : Bool)
    (files : Files)
    → let now = apply_steps (output_steps directory results serialize_evidence) files in
      (get now "report.json" ≡ some (whole (report_json results serialize_evidence)))
      × (get now "done.json" ≡ some (whole (done_json directory)))
unfolding output_steps string_eq
get-output_steps directory results serialize files =
    let report = report_json results serialize in
    let now = apply_steps (write_json_atomically "report.json" report) files in
    let reported : get now "report.json" ≡ some (whole report) =
      get-write files "report.json" "report.json" report refl in
    rw
      (apply_steps-append (write_json_atomically "report.json" report)
        (write_json_atomically "done.json" (done_json directory)) files)
      (
        get-write now "done.json" "report.json" (done_json directory) refl ∙ reported,
        get-write now "done.json" "done.json" (done_json directory) refl,
      )

-- The status file with the lines of more events, or none where there is none and no event.
abbrev pub followed : Option Contents → List Event → Option Contents
followed o [] = o
followed o (event ∷ events) = followed (some (line (or_default o no_lines) event)) events

get-write_events :
    (events : List Event) (files : Files)
    → get (write_events events files) status_name ≡ followed (get files status_name) events
unfolding write_events write_event string_eq
get-write_events [] files = refl
get-write_events (event ∷ events) files =
    let lines = line (or_default (get files status_name) no_lines) event in
    get-write_events events (write_event event files)
    ∙ rw (get-put files status_name status_name lines) refl

get-write_events_other :
    (events : List Event) (files : Files) (name : String)
    → (name == status_name) ≡ false
    → get (write_events events files) name ≡ get files name
unfolding write_events write_event
get-write_events_other [] files name h = refl
get-write_events_other (event ∷ events) files name h =
    get-write_events_other events (write_event event files) name h
    ∙ rw (get-put files status_name name _, h) refl

-- None of the files has the name.
abbrev is_free : String → List (String × Contents) → Bool
is_free name [] = true
is_free name ((k, contents) ∷ others) = not (name == k) && is_free name others

get-put_files :
    (others : List (String × Contents)) (files : Files) (name : String)
    → is_free name others ≡ true
    → get (put_files others files) name ≡ get files name
unfolding put_files
get-put_files [] files name h = refl
get-put_files ((k, contents) ∷ others) files name h =
    ground (arith, get-put_files others (put files k contents) name, get-put files k name contents)

-- The tests leave no file under a name of the run's own.
abbrev pub LeavesAlone : {World : Type 0} → (World → List (String × Contents)) → Type 0
LeavesAlone {World} left_by_tests =
    (w : World)
    → (is_free "report.json" (left_by_tests w)
        && is_free "done.json" (left_by_tests w)
        && is_free status_name (left_by_tests w))
      ≡ true

get-output_steps_status :
    (directory : FilePath) (results : List CapabilityGroupResult) (serialize_evidence : Bool)
    (files : Files)
    → get (apply_steps (output_steps directory results serialize_evidence) files) status_name
      ≡ get files status_name
unfolding output_steps string_eq
get-output_steps_status directory results serialize files =
    let report = report_json results serialize in
    let now = apply_steps (write_json_atomically "report.json" report) files in
    rw
      (apply_steps-append (write_json_atomically "report.json" report)
        (write_json_atomically "done.json" (done_json directory)) files)
      (get-write now "done.json" status_name (done_json directory) refl
        ∙ get-write files "report.json" status_name report refl)

-- After a run: with results the report and `done.json` are the new ones; after an exception they are
-- what they were before.
abbrev pub IsWritten :
    FilePath → Bool → Files → Files × Result (List CapabilityGroupResult) → Type 0
IsWritten directory serialize_evidence old (now, ok results) =
    (get now "report.json" ≡ some (whole (report_json results serialize_evidence)))
    × (get now "done.json" ≡ some (whole (done_json directory)))
IsWritten directory serialize_evidence old (now, err e) =
    (get now "report.json" ≡ get old "report.json") × (get now "done.json" ≡ get old "done.json")

module _ {World : Type 0} (left_by_tests : World → List (String × Contents))
    (alone : LeavesAlone left_by_tests) where
  -- A name of the run's own that is not that of the status file holds what it held.
  get-files_of_run :
      (directory : Option Files) (run : Session World × Result (List CapabilityGroupResult))
      (name : String)
      → (name == status_name) ≡ false
      → is_free name (left_by_tests run.0.0) ≡ true
      → get (files_of_run left_by_tests directory run) name ≡ get (made directory) name
  unfolding files_of_run
  get-files_of_run directory (s, result) name other free =
      get-put_files (left_by_tests s.0) (write_events s.1 (made directory)) name free
      ∙ get-write_events_other s.1 (made directory) name other

  get-files_of_run_status :
      (directory : Option Files) (run : Session World × Result (List CapabilityGroupResult))
      → get (files_of_run left_by_tests directory run) status_name
        ≡ followed (get (made directory) status_name) run.0.1
  unfolding files_of_run
  get-files_of_run_status directory (s, result) =
      get-put_files (left_by_tests s.0) (write_events s.1 (made directory)) status_name
        (ground (arith, alone s.0))
      ∙ get-write_events s.1 (made directory)

  written-IsWritten :
      (path : FilePath) (serialize_evidence : Bool) (directory : Option Files)
      (run : Session World × Result (List CapabilityGroupResult))
      → let after =
          written left_by_tests path serialize_evidence
            (files_of_run left_by_tests directory run)
            run in
        IsWritten path serialize_evidence (made directory) after.1
        × (get after.1.0 status_name ≡ followed (get (made directory) status_name) run.0.1)
        × (after.1.1 ≡ run.1)
  unfolding string_eq
  written-IsWritten path serialize directory (s, ok results) =
      let files = files_of_run left_by_tests directory (s, ok results) in
      (
        get-output_steps path results serialize files,
        get-output_steps_status path results serialize files
            ∙ get-files_of_run_status directory (s, ok results),
        refl,
      )
  written-IsWritten path serialize directory (s, err e) = (
    (
      get-files_of_run directory (s, err e) "report.json" refl (ground (arith, alone s.0)),
      get-files_of_run directory (s, err e) "done.json" refl (ground (arith, alone s.0)),
    ),
    get-files_of_run_status directory (s, err e),
    refl,
  )

  -- If the tests leave no file under the names of the run, and whether the output directory is there or
  -- not: the status file holds its old lines and then one for each event of the run, in order; with
  -- results, the report of these and `done.json` are in the directory; after an exception, the report
  -- and `done.json` are those that were there before, or are not there. What is returned or raised is
  -- what the run of all groups returns or raises.
  pub run_from_files-IsWritten :
      (groups : List (CapabilityGroup World)) (path : FilePath) (serialize_evidence : Bool)
      (w : World) (directory : Option Files)
      → let after = run_from_files left_by_tests groups path serialize_evidence w directory in
        let run = run_all_groups groups (w, []) in
        IsWritten path serialize_evidence (made directory) after.1
        × (get after.1.0 status_name ≡ followed (get (made directory) status_name) run.0.1)
        × (after.1.1 ≡ run.1)
  unfolding run_from_files
  run_from_files-IsWritten groups path serialize w directory =
      written-IsWritten path serialize directory (run_all_groups groups (w, []))
