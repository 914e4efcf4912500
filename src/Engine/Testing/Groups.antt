-- ===== src/Engine/Testing/Groups.antt =====
-- A run of all groups, as a relation between the groups, the results and what is reported.
use mathlib.Core.List.{append-nil, append_assoc}
use mathlib.Core.Path.{subst}
use sandbox_tester.Common.{
  ◌≡◌, refl, ◌∙◌, sym, ap, true, false, List, [], ◌∷◌, ◌++◌, ok, contains, string_eq, Bool-cases,
  inl, inr,
}
use sandbox_tester.Engine.Models.{CapabilityGroupResult}
use sandbox_tester.Engine.Testing.{
  Event, group_skipped, Session, CapabilityGroup, run_group, run_all_groups, enabled_groups, report,
  and_then, with_first,
}
use sandbox_tester.Engine.Testing.Order.{OfTests, group_events, and_then-eq-ok, same, run_group_lem}

-- The run of the groups gave the results, and reported the events.
pub data Ran (World : Type 0)
    : List (CapabilityGroup World) → List CapabilityGroupResult → List Event → Type 0 where
  done : Ran World [] [] []
  skipped :
      (group : CapabilityGroup World) {groups : List (CapabilityGroup World)}
      {results : List CapabilityGroupResult} {events : List Event}
      → contains enabled_groups group.id ≡ false
      → Ran World groups results events
      → Ran World (group ∷ groups) results (group_skipped group.id group.title ∷ events)
  ran :
      (group : CapabilityGroup World) (r : CapabilityGroupResult)
      {groups : List (CapabilityGroup World)} {results : List CapabilityGroupResult}
      {events : List Event}
      → contains enabled_groups group.id ≡ true
      → r.id ≡ group.id
      → r.title ≡ group.title
      → OfTests group.tests r.capabilities
      → Ran World groups results events
      → Ran World (group ∷ groups) (r ∷ results) (group_events r ++ events)

module _ {World : Type 0} where
  pub run_all_groups_skipped :
      (group : CapabilityGroup World) (groups : List (CapabilityGroup World)) (s : Session World)
      → contains enabled_groups group.id ≡ false
      → run_all_groups (group ∷ groups) s
        ≡ run_all_groups groups (report (group_skipped group.id group.title) s)
  unfolding run_all_groups
  run_all_groups_skipped group groups s h = rw (h, run_all_groups) refl

  pub run_all_groups_enabled :
      (group : CapabilityGroup World) (groups : List (CapabilityGroup World)) (s : Session World)
      → contains enabled_groups group.id ≡ true
      → run_all_groups (group ∷ groups) s
        ≡ and_then
            (run_group group s)
            (λ result s₁. and_then (run_all_groups groups s₁) (with_first result))
  unfolding run_all_groups
  run_all_groups_enabled group groups s h = rw (h, run_all_groups) refl

  -- A run that comes to its end has a result for each enabled group and for no other, in the order of
  -- the groups, with a result for each test of the group; and it has reported, in the same order, a
  -- group that is not enabled as skipped, and the events of each result.
  pub run_all_groups_lem :
      (groups : List (CapabilityGroup World)) (s s' : Session World)
      (results : List CapabilityGroupResult)
      → run_all_groups groups s ≡ (s', ok results)
      → (events : List Event) × (s'.1 ≡ s.1 ++ events) × Ran World groups results events
  unfolding run_all_groups
  run_all_groups_lem [] s s' results h =
      let (session, e) = same s s' [] results h in
      (
        [],
        sym session ∙ sym (append-nil s.1),
        subst (λ (x : List CapabilityGroupResult). Ran World [] x []) e done,
      )
  run_all_groups_lem (group ∷ groups) s s' results h =
      elim (Bool-cases (contains enabled_groups group.id)) [
        | inr f ↦
            let (events, e, rest) =
              run_all_groups_lem groups (report (group_skipped group.id group.title) s) s' results
                (sym (run_all_groups_skipped group groups s f) ∙ h) in
            (
              group_skipped group.id group.title ∷ events,
              e ∙ append_assoc s.1 (group_skipped group.id group.title ∷ []) events,
              skipped group f rest,
            )
        | inl t ↦
            let (s₁, r, h₁, r₁) =
              and_then-eq-ok (run_group group s)
                (λ result s₁. and_then (run_all_groups groups s₁) (with_first result)) s' results
                (sym (run_all_groups_enabled group groups s t) ∙ h) in
            let (s₂, others, h₂, r₂) =
              and_then-eq-ok (run_all_groups groups s₁) (with_first r) s' results r₁ in
            let (session, e) = same s₂ s' (r ∷ others) results r₂ in
            let (same_id, same_title, tests, first) = run_group_lem group s s₁ r h₁ in
            let (events, more, rest) = run_all_groups_lem groups s₁ s₂ others h₂ in
            (
              group_events r ++ events,
              sym session
                  ∙ more
                  ∙ ap (λ (x : List Event). x ++ events) first
                  ∙ append_assoc s.1 (group_events r) events,
              subst
                  (λ (x : List CapabilityGroupResult).
                    Ran World (group ∷ groups) x (group_events r ++ events))
                  e (ran group r t same_id same_title tests rest),
            )
      ]
