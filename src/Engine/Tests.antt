-- ===== src/Engine/Tests.antt =====
-- Tests of the test engine, and the theorems applied to them.
mod Context
mod Redaction
use Prim.Native.Nat.{ℕ, suc}
use mathlib.Core.List.{map}
use sandbox_tester.Engine.Output.{
  Files, Contents, part, status_name, whole, output_steps, report_json, done_json, run_from_files,
}
use sandbox_tester.Engine.Output.Written.{followed, run_from_files-IsWritten}
use sandbox_tester.Common.Dict.{get}
use sandbox_tester.Engine.Output.Crash.{IsSound, files_after, output_steps-IsSound}
use sandbox_tester.Common.PosixPath.{FilePath}
use sandbox_tester.Common.{
  some, none, String, ◌≡◌, refl, true, false, List, [], ◌∷◌, ◌++◌, ok, err, is_ok, value_error,
  string_eq,
}
use sandbox_tester.Engine.Json.{Json, text, object, member, no_members, array, item, no_items}
use sandbox_tester.Engine.Models.{
  allowed, denied, InvocationResult, AlternateInvocationResult, AlternateAttemptResult,
  CapabilityGroupResult,
}
use sandbox_tester.Engine.Runner.{remove_serialized_evidence, results_to_json_data}
use sandbox_tester.Engine.Runner.Evidence.{
  is_clean, erase_group, remove_serialized_evidence_lem, results_to_json_data_removed,
}
use sandbox_tester.Engine.Testing.{
  Event, CapabilityTest, CapabilityGroup, run_group, run_all_groups, run_tests, run_test,
  group_skipped,
}
use sandbox_tester.Engine.Testing.Groups.{Ran, run_all_groups_lem}
use sandbox_tester.Engine.Testing.Order.{OfTests, group_events, run_group_lem}
use sandbox_tester.Common.PosixPath

abbrev found : InvocationResult
found = record { outcome = allowed; summary = "Read a file."; evidence = "token=abc" }

abbrev refused : InvocationResult
refused = record { outcome = denied; summary = "Refused."; evidence = "" }

abbrev attempt : AlternateAttemptResult
attempt = record {
  id = "A1";
  title = "cat";
  outcome = allowed;
  bypass_class = "reader";
  command_family = "coreutils";
  evidence = "secret";
}

abbrev alternates : AlternateInvocationResult
alternates = record { outcome = allowed; summary = "One attempt."; attempts = attempt ∷ [] }

-- A test that counts its runs on the machine.
abbrev counting : CapabilityTest ℕ
counting = record {
  id = "C01";
  title = "Read";
  run_shell = λ n. (suc n, ok found);
  run_tool = λ n. (suc n, ok refused);
  run_alternates = λ n. (suc n, ok alternates);
}

abbrev raising : CapabilityTest ℕ
raising = record counting { run_tool = λ n. (n, err (value_error "No such tool.")) }

abbrev reading : CapabilityGroup ℕ
reading = record { id = "G02"; title = "Files"; tests = counting ∷ [] }

abbrev unlisted : CapabilityGroup ℕ
unlisted = record { id = "G29"; title = "Later"; tests = raising ∷ [] }

abbrev broken : CapabilityGroup ℕ
broken = record { id = "G03"; title = "Tools"; tests = raising ∷ [] }

abbrev reading_result : CapabilityGroupResult
reading_result = record {
  id = "G02";
  title = "Files";
  capabilities =
      record { id = "C01"; title = "Read"; shell = found; tool = refused; alternates = alternates }
      ∷ [];
}

abbrev reported : List Event
reported = group_events reading_result

run_group_lem_example :
    (◌≡◌ {A = String} reading_result.id reading.id)
    × (◌≡◌ {A = String} reading_result.title reading.title)
    × OfTests (counting ∷ []) reading_result.capabilities
    × (reported ≡ [] ++ reported)
unfolding run_group run_tests run_test
run_group_lem_example = run_group_lem reading (0, []) (3, reported) reading_result refl

run_all_groups_lem_example :
    (events : List Event) × (group_skipped "G29" "Later" ∷ reported ≡ [] ++ events)
    × Ran ℕ (unlisted ∷ reading ∷ []) (reading_result ∷ []) events
unfolding run_all_groups run_group run_tests run_test string_eq
run_all_groups_lem_example =
    run_all_groups_lem (unlisted ∷ reading ∷ []) (0, []) (3, group_skipped "G29" "Later" ∷ reported)
      (reading_result ∷ []) refl

abbrev nested : Json
nested = object (
    member "evidence" (array (item (text "key") no_items))
      (member "shell" (object (member "evidence" (text "token=abc") no_members)) no_members))

remove_serialized_evidence_lem_example :
    (is_clean (remove_serialized_evidence nested) ≡ true)
    × (is_clean nested ≡ true → remove_serialized_evidence nested ≡ nested)
remove_serialized_evidence_lem_example = remove_serialized_evidence_lem nested

results_to_json_data_removed_example :
    results_to_json_data (reading_result ∷ []) false
    ≡ results_to_json_data (map erase_group (reading_result ∷ [])) true
results_to_json_data_removed_example = results_to_json_data_removed (reading_result ∷ [])

abbrev stale : Files
stale = ("report.json", whole (text "old")) ∷ []

abbrev output : FilePath
output = PosixPath.parse "/sandbox-output"

output_steps-IsSound_example :
    IsSound stale
      (files_after 4 (output_steps output (reading_result ∷ []) false) stale)
      (report_json (reading_result ∷ []) false)
      (done_json output)
output_steps-IsSound_example = output_steps-IsSound 4 output (reading_result ∷ []) false stale

-- A test leaves a screenshot.
abbrev left_by_tests : ℕ → List (String × Contents)
left_by_tests n = ("screenshot.png", part) ∷ []

run_from_files-IsWritten_example :
    let after = run_from_files left_by_tests (reading ∷ broken ∷ []) output true 0 (some stale) in
    ((get after.1.0 "report.json" ≡ some (whole (text "old"))) × (get after.1.0 "done.json" ≡ none))
    × (get after.1.0 status_name
        ≡ followed none (run_all_groups (reading ∷ broken ∷ []) (0, [])).0.1)
    × (after.1.1 ≡ err (value_error "No such tool."))
unfolding run_from_files run_all_groups run_group run_tests run_test string_eq get
run_from_files-IsWritten_example =
    run_from_files-IsWritten left_by_tests (λ w. refl) (reading ∷ broken ∷ []) output true 0
      (some stale)
