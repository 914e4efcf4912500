-- ===== src/Engine/Models.antt =====
-- The results: src/sandbox_tester/models.py, and what `dataclasses.asdict` makes of them. The classes'
-- calls, with what `__post_init__` does, are functions; the records hold what comes of them.
use mathlib.Core.List.{map}
use sandbox_tester.Common.{String, List, [], ◌∷◌}
use sandbox_tester.Engine.Redaction.{redact_evidence}
use sandbox_tester.Engine.Json.{Json, text, array, object, items, members}

pub data Outcome : Type 0 where
  allowed denied error not_applicable : Outcome

pub record InvocationResult : Type 0 where
  pub outcome : Outcome
  pub summary : String
  pub evidence : String

-- `InvocationResult(...)`
unfoldable pub invocation_result : Outcome → String → String → InvocationResult
unfolding redact_evidence
invocation_result outcome summary evidence = record {
  outcome = outcome;
  summary = summary;
  evidence = redact_evidence evidence;
}

pub record AlternateAttemptResult : Type 0 where
  pub id : String
  pub title : String
  pub outcome : Outcome
  pub bypass_class : String
  pub command_family : String
  pub evidence : String

-- `AlternateAttemptResult(...)`
unfoldable pub attempt_result :
    String → String → Outcome → String → String → String → AlternateAttemptResult
attempt_result id title outcome bypass_class command_family evidence = record {
  id = id;
  title = title;
  outcome = outcome;
  bypass_class = bypass_class;
  command_family = command_family;
  evidence = redact_evidence evidence;
}

pub record AlternateInvocationResult : Type 0 where
  pub outcome : Outcome
  pub summary : String
  pub attempts : List AlternateAttemptResult

pub record CapabilityResult : Type 0 where
  pub id : String
  pub title : String
  pub shell : InvocationResult
  pub tool : InvocationResult
  pub alternates : AlternateInvocationResult

pub record CapabilityGroupResult : Type 0 where
  pub id : String
  pub title : String
  pub capabilities : List CapabilityResult

-- The value of an `Outcome`.
unfoldable pub outcome_text : Outcome → String
outcome_text allowed = "Allowed"
outcome_text denied = "Denied"
outcome_text error = "Error"
outcome_text not_applicable = "N/A"

-- `dataclasses.asdict`, one function for a class.
unfoldable pub invocation_data : InvocationResult → Json
invocation_data r = object (
    members (
      ("outcome", text (outcome_text r.outcome))
      ∷ ("summary", text r.summary)
      ∷ ("evidence", text r.evidence)
      ∷ []))

unfoldable pub attempt_data : AlternateAttemptResult → Json
attempt_data r = object (
    members (
      ("id", text r.id)
      ∷ ("title", text r.title)
      ∷ ("outcome", text (outcome_text r.outcome))
      ∷ ("bypass_class", text r.bypass_class)
      ∷ ("command_family", text r.command_family)
      ∷ ("evidence", text r.evidence)
      ∷ []))

unfoldable pub alternates_data : AlternateInvocationResult → Json
alternates_data r = object (
    members (
      ("outcome", text (outcome_text r.outcome))
      ∷ ("summary", text r.summary)
      ∷ ("attempts", array (items (map attempt_data r.attempts)))
      ∷ []))

unfoldable pub capability_data : CapabilityResult → Json
capability_data r = object (
    members (
      ("id", text r.id)
      ∷ ("title", text r.title)
      ∷ ("shell", invocation_data r.shell)
      ∷ ("tool", invocation_data r.tool)
      ∷ ("alternates", alternates_data r.alternates)
      ∷ []))

unfoldable pub group_data : CapabilityGroupResult → Json
group_data r = object (
    members (
      ("id", text r.id)
      ∷ ("title", text r.title)
      ∷ ("capabilities", array (items (map capability_data r.capabilities)))
      ∷ []))
