-- ===== src/Groups/Tests.antt =====
-- Tests of the groups on a machine that counts what is asked of it.
use sandbox_tester.Groups.Attempts.{
  completed_attempt, on_exception, AlternateProgramAttempt, run_program_alternate_attempt,
  run_program_alternate_attempts, perform_all,
}
use sandbox_tester.Engine.Models.{attempt_result}
use sandbox_tester.Common.{
  ok, ◌≡◌, refl, true, false, ℕ, suc, String, List, [], ◌∷◌, some, ◌==◌, number_eq, string_eq,
  if◌then◌else◌, All,
}
use sandbox_tester.Common.PosixPath.{FilePath}
use sandbox_tester.Engine.Context.{linux}
use sandbox_tester.Engine.Testing.{Session, run_all_groups}
use sandbox_tester.Engine.Testing.Holds.{OkHolds, GroupHolds}
use sandbox_tester.Groups.Machine.{
  Machine, Completed, Answer, returned, raised, pos, file_not_found, permission_error, Action,
}
use sandbox_tester.Groups.Attempts.Outcomes.{
  overall, IsCounted, run_program_alternate_attempts_lem, run_program_alternate_attempts-IsCounted,
}
use sandbox_tester.Groups.Attempts.Order.{AreResults, run_program_alternate_attempts-AreResults}
use sandbox_tester.Groups.ResourceLimits.{build_cpu_count_alternate_attempts}
use sandbox_tester.Groups.Run.{
  modelled_groups, HasNoKeys, AlternatesHaveNoKeys, run_modelled_groups-HasNoKeys,
}
use sandbox_tester.Common.PosixPath

abbrev counted : {A : Type 0} → Answer A → Action ℕ A
counted answer n = (suc n, answer)

abbrev printed : String → Completed
printed s = record { returncode = pos 0; stdout = s; stderr = "" }

abbrev failed : Completed
failed = record { returncode = pos 1; stdout = ""; stderr = "key = v" }

-- The first process is not found, the second one fails, and those after it print a key.
abbrev answer_of : ℕ → Answer Completed
answer_of n =
    if n == 0
    then raised (file_not_found "FileNotFoundError(2, 'No such file')")
    else if n == 1
    then returned failed
    else returned (printed "AKIA1234")

abbrev machine : Machine ℕ
machine = record {
  path_text = PosixPath.to_text;
  is_path_separator = λ c. false;
  start_thread = λ w. (w, ok tt);
  run = λ call n. (suc n, answer_of n);
  cpu_count = counted (returned (some 4));
  disk_usage = λ path. counted (returned (record { total = 3; used = 1; free = 2 }));
  environment_names = counted (returned ("PATH" ∷ "HOME" ∷ []));
  environment_variable = λ name. counted (returned (some "hf_secret"));
  exists = λ path. counted (returned true);
  file_size = λ path. counted (returned 12);
  append_text = λ path line. counted (raised (permission_error "PermissionError(13)"));
  read_first_line = λ path. counted (returned "sk-live");
  read_bytes = λ path n. counted (returned 512);
  timestamp = counted (returned "2024-01-01T00:00:00");
  fresh_id = counted (returned "0a");
}

abbrev attempts : List AlternateProgramAttempt
attempts = build_cpu_count_alternate_attempts linux

run_program_alternate_attempts_lem_example :
    ((run_program_alternate_attempts (run_program_alternate_attempt machine) attempts 0).0
      ≡ (perform_all (run_program_alternate_attempt machine) attempts 0).0)
    × ((run_program_alternate_attempts
          (run_program_alternate_attempt machine)
          attempts
          0).1.attempts
        ≡ (perform_all (run_program_alternate_attempt machine) attempts 0).1)
    × ((run_program_alternate_attempts (run_program_alternate_attempt machine) attempts 0).1.outcome
        ≡ overall (perform_all (run_program_alternate_attempt machine) attempts 0).1)
run_program_alternate_attempts_lem_example =
    run_program_alternate_attempts_lem (run_program_alternate_attempt machine) attempts 0

run_program_alternate_attempts-IsCounted_example :
    IsCounted
      (run_program_alternate_attempts (run_program_alternate_attempt machine) attempts 0).1
      3
unfolding run_program_alternate_attempts build_cpu_count_alternate_attempts
    run_program_alternate_attempt number_eq on_exception attempt_result completed_attempt
run_program_alternate_attempts-IsCounted_example =
    run_program_alternate_attempts-IsCounted (run_program_alternate_attempt machine) attempts 0 refl

run_program_alternate_attempts-AreResults_example :
    AreResults machine attempts 0
      (run_program_alternate_attempts (run_program_alternate_attempt machine) attempts 0).0
      (run_program_alternate_attempts (run_program_alternate_attempt machine) attempts 0).1.attempts
run_program_alternate_attempts-AreResults_example =
    run_program_alternate_attempts-AreResults machine attempts 0

abbrev home : FilePath
home = PosixPath.parse "/home"

abbrev start : Session ℕ
start = (0, [])

run_modelled_groups-HasNoKeys_example :
    OkHolds
      (All (GroupHolds HasNoKeys AlternatesHaveNoKeys))
      (run_all_groups (modelled_groups machine linux "/work" "" home) start).1
run_modelled_groups-HasNoKeys_example =
    run_modelled_groups-HasNoKeys machine linux "/work" "" home start
