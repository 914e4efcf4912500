-- ===== src/Engine/Testing.antt =====
-- Running the groups: src/sandbox_tester/testing.py and src/sandbox_tester/manager.py. What the tests do to
-- the machine is a change of a `World`; what a reporter is told is a list of events.
pub mod Order
pub mod Groups
pub mod Holds
use sandbox_tester.Common.{
  String, Bool, true, false, List, [], ◌∷◌, ◌++◌, Result, ok, err, contains, string_eq,
  if◌then◌else◌,
}
use sandbox_tester.Engine.Models.{
  InvocationResult, AlternateInvocationResult, CapabilityResult, CapabilityGroupResult,
  not_applicable,
}

-- The calls of a `TestReporter`.
pub data Event : Type 0 where
  group_started group_skipped : String → String → Event
  capability_started : String → String → String → Event
  shell_completed tool_completed : InvocationResult → Event
  alternates_completed : AlternateInvocationResult → Event

-- The machine and what has been reported, and an action on both that may raise.
abbrev pub Session : Type 0 → Type 0
Session World = World × List Event

abbrev pub Action : Type 0 → Type 0 → Type 0
Action World A = Session World → Session World × Result A

pub record CapabilityTest (World : Type 0) : Type 0 where
  pub id : String
  pub title : String
  pub run_shell : World → World × Result InvocationResult
  pub run_tool : World → World × Result InvocationResult
  pub run_alternates : World → World × Result AlternateInvocationResult

pub record CapabilityGroup (World : Type 0) : Type 0 where
  pub id : String
  pub title : String
  pub tests : List (CapabilityTest World)

-- `no_alternates`
unfoldable pub no_alternates : AlternateInvocationResult
no_alternates = record {
  outcome = not_applicable;
  summary = "No alternate shell attempts are implemented for this capability.";
  attempts = [];
}

module _ {World : Type 0} where
  abbrev pub report : Event → Session World → Session World
  report event (w, events) = (w, events ++ event ∷ [])

  -- A test runs on the machine, and reports nothing by itself.
  abbrev pub invoke : {A : Type 0} → (World → World × Result A) → Action World A
  invoke run (w, events) = let (w', result) = run w in ((w', events), result)

  abbrev pub and_then :
      {A B : Type 0} → Session World × Result A → (A → Action World B) → Session World × Result B
  and_then (s, err e) next = (s, err e)
  and_then (s, ok a) next = next a s

  -- What is left of a test after its alternates, its tool run and its shell run.
  abbrev pub after_alternates :
      CapabilityTest World
      → InvocationResult
      → InvocationResult
      → AlternateInvocationResult
      → Action World CapabilityResult
  after_alternates test shell tool alternates s =
      let result : CapabilityResult = record {
        id = test.id;
        title = test.title;
        shell = shell;
        tool = tool;
        alternates = alternates;
      } in
      (report (alternates_completed alternates) s, ok result)

  abbrev pub after_tool :
      CapabilityTest World → InvocationResult → InvocationResult → Action World CapabilityResult
  after_tool test shell tool s =
      and_then (invoke test.run_alternates (report (tool_completed tool) s))
        (after_alternates test shell tool)

  abbrev pub after_shell : CapabilityTest World → InvocationResult → Action World CapabilityResult
  after_shell test shell s =
      and_then (invoke test.run_tool (report (shell_completed shell) s)) (after_tool test shell)

  -- The body of the loop of `run_group`.
  unfoldable pub run_test : String → CapabilityTest World → Action World CapabilityResult
  run_test group_id test s =
      and_then (invoke test.run_shell (report (capability_started group_id test.id test.title) s))
        (after_shell test)

  abbrev pub with_first : {A : Type 0} → A → List A → Action World (List A)
  with_first result results s = (s, ok (result ∷ results))

  unfoldable pub run_tests :
      String → List (CapabilityTest World) → Action World (List CapabilityResult)
  run_tests group_id [] s = (s, ok [])
  run_tests group_id (test ∷ tests) s =
      and_then (run_test group_id test s)
        (λ result s₁. and_then (run_tests group_id tests s₁) (with_first result))

  abbrev pub group_result :
      CapabilityGroup World → List CapabilityResult → Action World CapabilityGroupResult
  group_result group results s =
      (s, ok (record { id = group.id; title = group.title; capabilities = results }))

  unfoldable pub run_group : CapabilityGroup World → Action World CapabilityGroupResult
  run_group group s =
      and_then (run_tests group.id group.tests (report (group_started group.id group.title) s))
        (group_result group)

-- `_ENABLED_GROUPS`
abbrev pub enabled_groups : List String
enabled_groups =
    "G01" ∷ "G02" ∷ "G03" ∷ "G04" ∷ "G05" ∷ "G06" ∷ "G07" ∷ "G08" ∷ "G09" ∷ "G10" ∷ "G11" ∷ "G12"
    ∷ "G13" ∷ "G14" ∷ "G15" ∷ "G16" ∷ "G17" ∷ "G18" ∷ "G19" ∷ "G20" ∷ "G21" ∷ "G22" ∷ "G30" ∷ []

module _ {World : Type 0} where
  -- The groups that the factories make of the context, in the order of `GROUP_FACTORIES`, which are
  -- given here. A group that is not enabled is reported and left out.
  unfoldable pub run_all_groups :
      List (CapabilityGroup World) → Action World (List CapabilityGroupResult)
  run_all_groups [] s = (s, ok [])
  run_all_groups (group ∷ groups) s = elim (contains enabled_groups group.id) [
    | false ↦ run_all_groups groups (report (group_skipped group.id group.title) s)
    | true ↦ and_then (run_group group s) (λ result s₁.
        and_then (run_all_groups groups s₁) (λ results s₂. (s₂, ok (result ∷ results))))
  ]
