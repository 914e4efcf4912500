-- ===== src/Groups/Run.antt =====
-- A run of the groups of src/sandbox_tester/group_04.py, group_05.py, group_08.py and group_22.py.
use sandbox_tester.Common.{String, List, [], ◌∷◌, All, All-map}
use sandbox_tester.Common.PosixPath.{FilePath}
use sandbox_tester.Engine.Context.{OperatingSystem}
use sandbox_tester.Engine.Testing.{CapabilityGroup, Session, run_all_groups}
use sandbox_tester.Groups.Machine.{Machine}
use sandbox_tester.Groups.DiskSpace.{disk_space_group}
use sandbox_tester.Groups.ResourceLimits.{resource_limits_group}
use sandbox_tester.Groups.Logs.Reading.{logs_group}
use sandbox_tester.Groups.Variables.CredentialProbes.{variables_group}
use sandbox_tester.Groups.Redacted.{IsRedacted, HasRedacted, AlternatesRedacted, AttemptRedacted}
use sandbox_tester.Engine.Redaction.Left.{has_token-redact_evidence, Without}
use sandbox_tester.Engine.Testing.Holds.{
  TestHolds, OkHolds, CapabilityHolds, GroupHolds, OkHolds-map, OkHolds-run_all_groups,
}
use sandbox_tester.Groups.Redacted.Programs.{disk_space_test-TestHolds, cpu_count_test-TestHolds}
use sandbox_tester.Groups.Redacted.Variables.{
  names_test-TestHolds, path_test-TestHolds, credentials_test-TestHolds,
}
use sandbox_tester.Groups.Redacted.Logs.{
  write_log_test-TestHolds, system_logs_test-TestHolds, security_logs_test-TestHolds,
}
use sandbox_tester.Engine.Models.{
  AlternateInvocationResult, CapabilityGroupResult, CapabilityResult, InvocationResult,
  AlternateAttemptResult,
}
use sandbox_tester.Engine.Redaction.{aws, google, hugging_face}

module _ {World : Type 0} (machine : Machine World) (operating_system : OperatingSystem)
    (working_directory drive : String) (allowed_directory : FilePath) where
  -- The four groups, in the order of `GROUP_FACTORIES`.
  abbrev pub modelled_groups : List (CapabilityGroup World)
  modelled_groups =
      disk_space_group operating_system working_directory drive machine
      ∷ variables_group machine operating_system
      ∷ resource_limits_group operating_system machine
      ∷ logs_group machine operating_system allowed_directory
      ∷ []

-- A text without an access key of AWS, a key of Google and a token of Hugging Face.
abbrev pub WithoutKeys : String → Type 0
WithoutKeys s = Without aws s × Without google s × Without hugging_face s

abbrev pub HasNoKeys : InvocationResult → Type 0
HasNoKeys r = WithoutKeys r.evidence

abbrev pub AlternatesHaveNoKeys : AlternateInvocationResult → Type 0
AlternatesHaveNoKeys r = All (λ (a : AlternateAttemptResult). WithoutKeys a.evidence) r.attempts

WithoutKeys-of_redacted : (s : String) → IsRedacted s → WithoutKeys s
WithoutKeys-of_redacted s (original, e) = rw e (has_token-redact_evidence original)

alternates_without_keys :
    (r : AlternateInvocationResult) → AlternatesRedacted r → AlternatesHaveNoKeys r
alternates_without_keys r =
    All-map AttemptRedacted _ r.attempts (λ a. WithoutKeys-of_redacted a.evidence)

capability_without_keys :
    (r : CapabilityResult)
    → CapabilityHolds HasRedacted AlternatesRedacted r
    → CapabilityHolds HasNoKeys AlternatesHaveNoKeys r
capability_without_keys r (shell, tool, alternates) = (
  WithoutKeys-of_redacted _ shell,
  WithoutKeys-of_redacted _ tool,
  alternates_without_keys r.alternates alternates,
)

group_without_keys :
    (g : CapabilityGroupResult)
    → GroupHolds HasRedacted AlternatesRedacted g
    → GroupHolds HasNoKeys AlternatesHaveNoKeys g
group_without_keys g =
    All-map (CapabilityHolds HasRedacted AlternatesRedacted) _ g.capabilities
      capability_without_keys

module _ {World : Type 0} (machine : Machine World) (operating_system : OperatingSystem)
    (working_directory drive : String) (allowed_directory : FilePath) where
  abbrev groups : List (CapabilityGroup World)
  groups = modelled_groups machine operating_system working_directory drive allowed_directory

  modelled_groups_redacted :
      All
        (λ (group : CapabilityGroup World).
          All (TestHolds HasRedacted AlternatesRedacted) group.tests)
        groups
  modelled_groups_redacted = (
    (disk_space_test-TestHolds machine operating_system working_directory drive, tt),
    (
      (
        names_test-TestHolds machine operating_system,
        (
          path_test-TestHolds machine operating_system,
          (credentials_test-TestHolds machine operating_system, tt),
        ),
      ),
      (
        (cpu_count_test-TestHolds machine operating_system, tt),
        (
          (
            write_log_test-TestHolds machine operating_system allowed_directory,
            (
              system_logs_test-TestHolds machine operating_system,
              (security_logs_test-TestHolds machine operating_system, tt),
            ),
          ),
          tt,
        ),
      ),
    ),
  )

  -- If a run of the modelled groups gives results, no evidence in them, of a shell run, of a tool run or
  -- of an alternate attempt, holds an AWS, a Google or a Hugging Face key where a word begins, whatever
  -- the machine prints.
  pub run_modelled_groups-HasNoKeys :
      (s : Session World)
      → OkHolds (All (GroupHolds HasNoKeys AlternatesHaveNoKeys)) (run_all_groups groups s).1
  run_modelled_groups-HasNoKeys s =
      OkHolds-map (All (GroupHolds HasRedacted AlternatesRedacted)) _ (run_all_groups groups s).1
        (λ results.
          All-map (GroupHolds HasRedacted AlternatesRedacted) _ results group_without_keys)
        (OkHolds-run_all_groups HasRedacted AlternatesRedacted groups s modelled_groups_redacted)
