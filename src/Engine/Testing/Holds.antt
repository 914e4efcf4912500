-- ===== src/Engine/Testing/Holds.antt =====
-- A property that every result of the tests has.
use sandbox_tester.Common.{
  String, List, [], ◌∷◌, Result, ok, err, All, contains, string_eq, inl, inr, Bool-cases,
}
use sandbox_tester.Engine.Models.{
  InvocationResult, AlternateInvocationResult, CapabilityResult, CapabilityGroupResult,
}
use sandbox_tester.Engine.Testing.Groups.{run_all_groups_enabled, run_all_groups_skipped}
use sandbox_tester.Engine.Testing.{
  group_skipped, Session, Action, CapabilityTest, CapabilityGroup, run_group, run_all_groups,
  enabled_groups, report, and_then, with_first, group_result, run_tests, run_test, after_shell,
  after_tool, after_alternates,
}

-- What is returned, if something is, has the property.
abbrev pub OkHolds : {A : Type 0} → (A → Type 0) → Result A → Type 0
OkHolds P (ok a) = P a
OkHolds P (err e) = Unit

pub OkHolds-map :
    {A : Type 0} (P Q : A → Type 0) (r : Result A)
    → ((a : A) → P a → Q a)
    → OkHolds P r
    → OkHolds Q r
OkHolds-map P Q (ok a) f h = f a h
OkHolds-map P Q (err e) f h = tt

module _ (P : InvocationResult → Type 0) (Q : AlternateInvocationResult → Type 0) where
  abbrev pub CapabilityHolds : CapabilityResult → Type 0
  CapabilityHolds r = P r.shell × P r.tool × Q r.alternates

  abbrev pub GroupHolds : CapabilityGroupResult → Type 0
  GroupHolds r = All CapabilityHolds r.capabilities

module _ {World : Type 0} (P : InvocationResult → Type 0)
    (Q : AlternateInvocationResult → Type 0) where
  abbrev pub TestHolds : CapabilityTest World → Type 0
  TestHolds test =
      ((w : World) → OkHolds P (test.run_shell w).1)
      × ((w : World) → OkHolds P (test.run_tool w).1)
      × ((w : World) → OkHolds Q (test.run_alternates w).1)

  OkHolds-and_then :
      {A B : Type 0} (F : A → Type 0) (G : B → Type 0) (m : Session World × Result A)
      (next : A → Action World B)
      → OkHolds F m.1
      → ((a : A) (s : Session World) → F a → OkHolds G (next a s).1)
      → OkHolds G (and_then m next).1
  OkHolds-and_then F G (s, ok a) next h step = step a s h
  OkHolds-and_then F G (s, err e) next h step = tt

  OkHolds-run_test :
      (group_id : String) (test : CapabilityTest World) (s : Session World)
      → TestHolds test
      → OkHolds (CapabilityHolds P Q) (run_test group_id test s).1
  unfolding run_test
  OkHolds-run_test group_id test s (shell_holds, tool_holds, alternates_hold) =
      OkHolds-and_then P (CapabilityHolds P Q) _ (after_shell test) (shell_holds s.0)
        (λ shell s₁ hs.
          OkHolds-and_then P (CapabilityHolds P Q) _ (after_tool test shell) (tool_holds s₁.0)
            (λ tool s₂ ht.
              OkHolds-and_then Q (CapabilityHolds P Q) _ (after_alternates test shell tool)
                (alternates_hold s₂.0) (λ alternates s₃ ha. (hs, ht, ha))))

  OkHolds-run_tests :
      (group_id : String) (tests : List (CapabilityTest World)) (s : Session World)
      → All TestHolds tests
      → OkHolds (All (CapabilityHolds P Q)) (run_tests group_id tests s).1
  unfolding run_tests
  OkHolds-run_tests group_id [] s h = tt
  OkHolds-run_tests group_id (test ∷ tests) s (first, rest) =
      OkHolds-and_then (CapabilityHolds P Q) (All (CapabilityHolds P Q)) (run_test group_id test s)
        _ (OkHolds-run_test group_id test s first)
        (λ result s₁ h₁.
          OkHolds-and_then (All (CapabilityHolds P Q)) (All (CapabilityHolds P Q))
            (run_tests group_id tests s₁) (with_first result)
            (OkHolds-run_tests group_id tests s₁ rest) (λ results s₂ h₂. (h₁, h₂)))

  OkHolds-run_group :
      (group : CapabilityGroup World) (s : Session World)
      → All TestHolds group.tests
      → OkHolds (GroupHolds P Q) (run_group group s).1
  unfolding run_group
  OkHolds-run_group group s h =
      OkHolds-and_then (All (CapabilityHolds P Q)) (GroupHolds P Q) _ (group_result group)
        (OkHolds-run_tests group.id group.tests _ h) (λ results s₁ h₁. h₁)

  -- What the results of every test of the groups have, all the results of a run have.
  pub OkHolds-run_all_groups :
      (groups : List (CapabilityGroup World)) (s : Session World)
      → All (λ (group : CapabilityGroup World). All TestHolds group.tests) groups
      → OkHolds (All (GroupHolds P Q)) (run_all_groups groups s).1
  unfolding run_all_groups
  OkHolds-run_all_groups [] s h = tt
  OkHolds-run_all_groups (group ∷ groups) s (first, rest) =
      elim (Bool-cases (contains enabled_groups group.id)) [
        | inl e ↦ rw (run_all_groups_enabled group groups s e) (
            OkHolds-and_then (GroupHolds P Q) (All (GroupHolds P Q)) (run_group group s) _
              (OkHolds-run_group group s first)
              (λ result s₁ h₁.
                OkHolds-and_then (All (GroupHolds P Q)) (All (GroupHolds P Q))
                  (run_all_groups groups s₁) _ (OkHolds-run_all_groups groups s₁ rest)
                  (λ results s₂ h₂. (h₁, h₂))))
        | inr e ↦
            rw (run_all_groups_skipped group groups s e)
              (OkHolds-run_all_groups groups (report (group_skipped group.id group.title) s) rest)
      ]
