-- ===== src/Engine/Testing/Order.antt =====
-- What a run reports, and in which order.
use mathlib.Core.List.{append-nil, append_assoc}
use mathlib.Core.Path.{subst}
use sandbox_tester.Engine.Testing.{
  with_first, group_result, after_shell, after_tool, after_alternates, report, invoke, and_then,
  Action, Event, group_started, capability_started, shell_completed, tool_completed,
  alternates_completed, Session, CapabilityTest, run_test, run_group, run_tests, CapabilityGroup,
}
use sandbox_tester.Common.{
  ◌∙◌, ap, sym, ok-injective, Result, err, String, ◌≡◌, refl, List, [], ◌∷◌, ◌++◌, ok,
}
use sandbox_tester.Engine.Models.{CapabilityResult, CapabilityGroupResult}

-- The events that belong to a result.
abbrev pub capability_events : String → CapabilityResult → List Event
capability_events group_id r =
    capability_started group_id r.id r.title
    ∷ shell_completed r.shell
    ∷ tool_completed r.tool
    ∷ alternates_completed r.alternates
    ∷ []

abbrev pub capabilities_events : String → List CapabilityResult → List Event
capabilities_events group_id [] = []
capabilities_events group_id (r ∷ rs) =
    capability_events group_id r ++ capabilities_events group_id rs

abbrev pub group_events : CapabilityGroupResult → List Event
group_events r = group_started r.id r.title ∷ capabilities_events r.id r.capabilities

abbrev also : Event → List Event → List Event
also event events = events ++ event ∷ []

append_four :
    (events : List Event) (a b c d : Event)
    → also d (also c (also b (also a events))) ≡ events ++ a ∷ b ∷ c ∷ d ∷ []
append_four [] a b c d = refl
append_four (e ∷ events) a b c d = ap (λ (es : List Event). e ∷ es) (append_four events a b c d)

module _ {World : Type 0} where
  -- The results are those of the tests, in their order.
  abbrev pub OfTests : List (CapabilityTest World) → List CapabilityResult → Type 0
  OfTests [] [] = Unit
  OfTests (t ∷ tests) (r ∷ results) = (r.id ≡ t.id) × (r.title ≡ t.title) × OfTests tests results
  OfTests _ _ = ⊥

  pub and_then-eq-ok :
      {A B : Type 0} (m : Session World × Result A) (next : A → Action World B) (s' : Session World)
      (b : B)
      → and_then m next ≡ (s', ok b)
      → (s : Session World) × (a : A) × (m ≡ (s, ok a)) × (next a s ≡ (s', ok b))
  and_then-eq-ok (s, ok a) next s' b h = (s, a, refl, h)
  and_then-eq-ok (s, err e) next s' b h = cc

  events-invoke :
      {A : Type 0} (run : World → World × Result A) (s s' : Session World) (a : A)
      → invoke run s ≡ (s', ok a)
      → s'.1 ≡ s.1
  events-invoke run (w, events) s' a h = cc

  run_test_lem :
      (group_id : String) (test : CapabilityTest World) (s s' : Session World)
      (r : CapabilityResult)
      → run_test group_id test s ≡ (s', ok r)
      → (r.id ≡ test.id) × (r.title ≡ test.title) × (s'.1 ≡ s.1 ++ capability_events group_id r)
  unfolding run_test
  run_test_lem group_id test (w, events) s' r h =
      let (s₁, shell, h₁, r₁) =
        and_then-eq-ok
          (invoke test.run_shell (w, events ++ capability_started group_id test.id test.title ∷ []))
          (after_shell test) s' r h in
      let (s₂, tool, h₂, r₂) =
        and_then-eq-ok (invoke test.run_tool (report (shell_completed shell) s₁))
          (after_tool test shell) s' r r₁ in
      let (s₃, alternates, h₃, r₃) =
        and_then-eq-ok (invoke test.run_alternates (report (tool_completed tool) s₂))
          (after_alternates test shell tool) s' r r₂ in
      let e₁ =
        events-invoke test.run_shell
          (w, events ++ capability_started group_id test.id test.title ∷ []) s₁ shell h₁ in
      let e₂ = events-invoke test.run_tool (report (shell_completed shell) s₁) s₂ tool h₂ in
      let e₃ =
        events-invoke test.run_alternates (report (tool_completed tool) s₂) s₃ alternates h₃ in
      let result =
        ok-injective _ r (ap (λ (x : Session World × Result CapabilityResult). x.1) r₃) in
      let session = ap (λ (x : Session World × Result CapabilityResult). x.0.1) r₃ in
      (
        sym (ap (λ (x : CapabilityResult). x.id) result),
        sym (ap (λ (x : CapabilityResult). x.title) result),
        sym session
            ∙ ap (also (alternates_completed alternates))
                (e₃ ∙ ap (also (tool_completed tool)) (e₂ ∙ ap (also (shell_completed shell)) e₁))
            ∙ append_four events _ _ _ _
            ∙ ap (λ (x : CapabilityResult). events ++ capability_events group_id x) result,
      )

  pub same :
      {A : Type 0} (s s' : Session World) (a b : A)
      → ◌≡◌ {A = Session World × Result A} (s, ok a) (s', ok b)
      → (s.1 ≡ s'.1) × (a ≡ b)
  same {A} s s' a b h = (
    ap (λ (x : Session World × Result A). x.0.1) h,
    ok-injective a b (ap (λ (x : Session World × Result A). x.1) h),
  )

  run_tests_lem :
      (group_id : String) (tests : List (CapabilityTest World)) (s s' : Session World)
      (rs : List CapabilityResult)
      → run_tests group_id tests s ≡ (s', ok rs)
      → OfTests tests rs × (s'.1 ≡ s.1 ++ capabilities_events group_id rs)
  unfolding run_tests
  run_tests_lem group_id [] s s' rs h =
      let (session, results) = same s s' [] rs h in
      subst
        (λ (x : List CapabilityResult).
          OfTests [] x × (s'.1 ≡ s.1 ++ capabilities_events group_id x))
        results (tt, sym session ∙ sym (append-nil s.1))
  run_tests_lem group_id (t ∷ tests) s s' rs h =
      let (s₁, r, h₁, r₁) =
        and_then-eq-ok (run_test group_id t s)
          (λ result s₁. and_then (run_tests group_id tests s₁) (with_first result)) s' rs h in
      let (s₂, rest, h₂, r₂) =
        and_then-eq-ok (run_tests group_id tests s₁) (with_first r) s' rs r₁ in
      let (session, results) = same s₂ s' (r ∷ rest) rs r₂ in
      let (same_id, same_title, first) = run_test_lem group_id t s s₁ r h₁ in
      let (ids, others) = run_tests_lem group_id tests s₁ s₂ rest h₂ in
      subst
        (λ (x : List CapabilityResult).
          OfTests (t ∷ tests) x × (s'.1 ≡ s.1 ++ capabilities_events group_id x))
        results
        (
          (same_id, same_title, ids),
          sym session
              ∙ others
              ∙ ap (λ (x : List Event). x ++ capabilities_events group_id rest) first
              ∙ append_assoc s.1 (capability_events group_id r) (capabilities_events group_id rest),
        )

  -- A group that runs to its end has one result for each of its tests, in their order and under their
  -- names, and what it has reported is the start of the group and then, for each result, the start of
  -- the capability and its three outcomes, nothing more.
  pub run_group_lem :
      (group : CapabilityGroup World) (s s' : Session World) (r : CapabilityGroupResult)
      → run_group group s ≡ (s', ok r)
      → (r.id ≡ group.id)
        × (r.title ≡ group.title)
        × OfTests group.tests r.capabilities
        × (s'.1 ≡ s.1 ++ group_events r)
  unfolding run_group
  run_group_lem group s s' r h =
      let (s₁, results, h₁, r₁) =
        and_then-eq-ok
          (run_tests group.id group.tests (report (group_started group.id group.title) s))
          (group_result group) s' r h in
      let (session, result) = same s₁ s' _ r r₁ in
      let (ids, events) = run_tests_lem group.id group.tests _ s₁ results h₁ in
      subst
        (λ (x : CapabilityGroupResult).
          (x.id ≡ group.id)
          × (x.title ≡ group.title)
          × OfTests group.tests x.capabilities
          × (s'.1 ≡ s.1 ++ group_events x))
        result
        (
          refl,
          refl,
          ids,
          sym session
              ∙ events
              ∙ append_assoc s.1 (group_started group.id group.title ∷ [])
                  (capabilities_events group.id results),
        )
