-- ===== src/Engine/Runner/Evidence.antt =====
-- What the removal of evidence takes away, and what it leaves.
use mathlib.Core.Bool.{and-eq-true_iff}
use mathlib.Core.List.{map}
use sandbox_tester.Common.{
  ◌≡◌, refl, ◌==◌, string_eq, arith, Bool, Bool-cases, inl, inr, true, false, ◌&&◌, if◌then◌else◌,
  List, [], ◌∷◌, ap, sym,
}
use sandbox_tester.Engine.Json.{
  Json, null, boolean, text, array, object, Items, no_items, item, Members, no_members, member,
  items,
}
use sandbox_tester.Engine.Models.{
  CapabilityGroupResult, InvocationResult, AlternateAttemptResult, AlternateInvocationResult,
  CapabilityResult, group_data, capability_data, alternates_data, attempt_data, invocation_data,
}
use sandbox_tester.Engine.Runner.{
  remove_serialized_evidence, remove_in_items, remove_in_members, results_to_json_data,
}

abbrev is_removed : Json → Bool
is_removed (text s) = s == "[REMOVED]"
is_removed _ = false

is_removed_lem : (j : Json) → is_removed j ≡ true → j ≡ text "[REMOVED]"
is_removed_lem null h = cc
is_removed_lem (boolean b) h = cc
is_removed_lem (text s) h = ground arith
is_removed_lem (array values) h = cc
is_removed_lem (object entries) h = cc

-- Whatever stands under the key `evidence`, at any depth, is the mark of a removal.
unfoldable mutual
  pub is_clean : Json → Bool
  is_clean (array values) = items_clean values
  is_clean (object entries) = members_clean entries
  is_clean _ = true

  pub items_clean : Items → Bool
  items_clean no_items = true
  items_clean (item j values) = is_clean j && items_clean values

  pub members_clean : Members → Bool
  members_clean no_members = true
  members_clean (member key j entries) =
      let below = is_clean j in
      (if key == "evidence" then is_removed j else below) && members_clean entries

mutual
  unfolding is_clean remove_serialized_evidence string_eq

  is_clean-removed : (j : Json) → is_clean (remove_serialized_evidence j) ≡ true
  is_clean-removed null = refl
  is_clean-removed (boolean b) = refl
  is_clean-removed (text s) = refl
  is_clean-removed (array values) = items_clean-removed values
  is_clean-removed (object entries) = members_clean-removed entries

  items_clean-removed : (values : Items) → items_clean (remove_in_items values) ≡ true
  items_clean-removed no_items = refl
  items_clean-removed (item j values) =
      ground (arith, is_clean-removed j, items_clean-removed values)

  members_clean-removed : (entries : Members) → members_clean (remove_in_members entries) ≡ true
  members_clean-removed no_members = refl
  members_clean-removed (member key j entries) =
      ground (arith, is_clean-removed j, members_clean-removed entries)

mutual
  unfolding is_clean remove_serialized_evidence

  removed_of_clean : (j : Json) → is_clean j ≡ true → remove_serialized_evidence j ≡ j
  removed_of_clean null h = refl
  removed_of_clean (boolean b) h = refl
  removed_of_clean (text s) h = refl
  removed_of_clean (array values) h = ap array (removed_of_clean_items values h)
  removed_of_clean (object entries) h = ap object (removed_of_clean_members entries h)

  removed_of_clean_items :
      (values : Items) → items_clean values ≡ true → remove_in_items values ≡ values
  removed_of_clean_items no_items h = refl
  removed_of_clean_items (item j values) h =
      let (first, rest) = (and-eq-true_iff (is_clean j) (items_clean values)).0 h in
      rw (removed_of_clean j first, removed_of_clean_items values rest) refl

  removed_of_clean_members :
      (entries : Members) → members_clean entries ≡ true → remove_in_members entries ≡ entries
  removed_of_clean_members no_members h = refl
  removed_of_clean_members (member key j entries) h =
      let (first, rest) =
        (and-eq-true_iff (if key == "evidence" then is_removed j else is_clean j)
            (members_clean entries)).0
          h in
      elim (Bool-cases (key == "evidence")) [
        | inl t ↦
            rw (t, removed_of_clean_members entries rest)
              (ap (λ x. member key x entries) (sym (is_removed_lem j (ground arith))))
        | inr f ↦
            rw (f, removed_of_clean j (ground arith), removed_of_clean_members entries rest) refl
      ]

-- After the removal, whatever stands under a key `evidence`, at any depth of the value, is the text
-- `[REMOVED]`; and a value in which that holds already stays as it is.
pub remove_serialized_evidence_lem :
    (j : Json)
    → (is_clean (remove_serialized_evidence j) ≡ true)
      × (is_clean j ≡ true → remove_serialized_evidence j ≡ j)
remove_serialized_evidence_lem j = (is_clean-removed j, removed_of_clean j)

-- A result with every evidence replaced by the mark.
abbrev pub erase_invocation : InvocationResult → InvocationResult
erase_invocation r = record r { evidence = "[REMOVED]" }

abbrev pub erase_attempt : AlternateAttemptResult → AlternateAttemptResult
erase_attempt r = record r { evidence = "[REMOVED]" }

abbrev pub erase_alternates : AlternateInvocationResult → AlternateInvocationResult
erase_alternates r = record r { attempts = map erase_attempt r.attempts }

abbrev pub erase_capability : CapabilityResult → CapabilityResult
erase_capability r = record r {
  shell = erase_invocation r.shell;
  tool = erase_invocation r.tool;
  alternates = erase_alternates r.alternates;
}

abbrev pub erase_group : CapabilityGroupResult → CapabilityGroupResult
erase_group r = record r { capabilities = map erase_capability r.capabilities }

removed-attempts :
    (rs : List AlternateAttemptResult)
    → remove_in_items (items (map attempt_data rs))
      ≡ items (map attempt_data (map erase_attempt rs))
unfolding remove_serialized_evidence attempt_data string_eq
removed-attempts [] = refl
removed-attempts (r ∷ rs) = rw (removed-attempts rs) refl

removed-capabilities :
    (rs : List CapabilityResult)
    → remove_in_items (items (map capability_data rs))
      ≡ items (map capability_data (map erase_capability rs))
unfolding remove_serialized_evidence capability_data alternates_data invocation_data string_eq
removed-capabilities [] = refl
removed-capabilities (r ∷ rs) =
    rw (removed-attempts r.alternates.attempts, removed-capabilities rs) refl

-- The report that is written without evidence is the one that is written, with evidence, for the
-- results in which every evidence is `[REMOVED]`: all evidence goes, and nothing else changes.
pub results_to_json_data_removed :
    (results : List CapabilityGroupResult)
    → results_to_json_data results false ≡ results_to_json_data (map erase_group results) true
unfolding results_to_json_data remove_serialized_evidence group_data string_eq
results_to_json_data_removed [] = refl
results_to_json_data_removed (r ∷ results) =
    rw (removed-capabilities r.capabilities, results_to_json_data_removed results) refl
