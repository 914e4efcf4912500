-- ===== src/Groups/Redacted.antt =====
-- Evidence as the tests of the groups report it.
pub mod Attempts
pub mod Programs
pub mod Logs
pub mod Variables
use sandbox_tester.Common.{
  String, ◌≡◌, refl, true, false, Bool, List, [], ◌∷◌, ℕ, zero, suc, if◌then◌else◌, Option, none,
  some, All, Result, ok, err,
}
use sandbox_tester.Engine.Redaction.{redact_evidence}
use sandbox_tester.Engine.Models.{
  Outcome, InvocationResult, AlternateAttemptResult, AlternateInvocationResult, invocation_result,
  attempt_result,
}
use sandbox_tester.Engine.Testing.Holds.{OkHolds}
use sandbox_tester.Groups.Machine.{
  Raised, file_not_found, permission_error, os_error, timeout_expired, other_exception, Answer,
  returned, raised, Action, handled, continue, try_except, ◌>>=◌, Machine, when_started, to_thread,
}
use sandbox_tester.Groups.Attempts.{perform_all, summary_of}

-- The text has gone through `redact_evidence`.
abbrev pub IsRedacted : String → Type 0
IsRedacted evidence = (original : String) × (evidence ≡ redact_evidence original)

abbrev pub HasRedacted : InvocationResult → Type 0
HasRedacted r = IsRedacted r.evidence

abbrev pub AttemptRedacted : AlternateAttemptResult → Type 0
AttemptRedacted r = IsRedacted r.evidence

abbrev pub AlternatesRedacted : AlternateInvocationResult → Type 0
AlternatesRedacted r = All AttemptRedacted r.attempts

-- Every value that the action returns has the property.
abbrev pub AnswerHolds : {A : Type 0} → (A → Type 0) → Answer A → Type 0
AnswerHolds P (returned a) = P a
AnswerHolds P (raised r) = Unit

abbrev pub Returns : {World A : Type 0} → (A → Type 0) → Action World A → Type 0
Returns {World} P action = (w : World) → AnswerHolds P (action w).1

pub invocation_result-HasRedacted :
    (outcome : Outcome) (summary evidence : String)
    → HasRedacted (invocation_result outcome summary evidence)
unfolding invocation_result
invocation_result-HasRedacted outcome summary evidence = (evidence, refl)

pub if_holds :
    {A : Type 0} (P : A → Type 0) (b : Bool) (x y : A) → P x → P y → P (if b then x else y)
if_holds P true x y hx hy = hx
if_holds P false x y hx hy = hy

module _ {World A : Type 0} (P : A → Type 0) where
  AnswerHolds-continue :
      {B : Type 0} (run : World × Answer B) (next : B → Action World A)
      → ((b : B) → Returns P (next b))
      → AnswerHolds P (continue run next).1
  AnswerHolds-continue (w, returned b) next h = h b w
  AnswerHolds-continue (w, raised r) next h = tt

  pub bind-Returns :
      {B : Type 0} (action : Action World B) (next : B → Action World A)
      → ((b : B) → Returns P (next b))
      → Returns P (action >>= next)
  bind-Returns action next h w = AnswerHolds-continue (action w) next h

  handled_holds :
      (run : World × Answer A) (handler : Raised → A)
      → AnswerHolds P run.1
      → ((r : Raised) → P (handler r))
      → P (handled run handler).1
  handled_holds (w, returned a) handler h step = h
  handled_holds (w, raised r) handler h step = step r

  pub try_except_holds :
      (body : Action World A) (handler : Raised → A)
      → Returns P body
      → ((r : Raised) → P (handler r))
      → (w : World) → P (try_except body handler w).1
  try_except_holds body handler h step w = handled_holds (body w) handler (h w) step

  pub if_Returns :
      (b : Bool) (x y : Action World A) → Returns P x → Returns P y → Returns P (if b then x else y)
  if_Returns true x y hx hy = hx
  if_Returns false x y hx hy = hy

module _ {World A : Type 0} (P : A → Type 0) where
  when_started_holds :
      (started : World × Result (Unit {0})) (body : World → World × A)
      → ((w : World) → P (body w).1)
      → OkHolds P (when_started started body).1
  when_started_holds (w, ok u) body h = h w
  when_started_holds (w, err e) body h = tt

  -- What a thread returns, if it is started.
  pub to_thread_holds :
      (machine : Machine World) (body : World → World × A)
      → ((w : World) → P (body w).1)
      → (w : World) → OkHolds P (to_thread machine body w).1
  to_thread_holds machine body h w = when_started_holds (machine.start_thread w) body h

module _ {World A : Type 0} (P : AlternateAttemptResult → Type 0) where
  pub perform_all_holds :
      (perform : A → World → World × AlternateAttemptResult)
      → ((a : A) (w : World) → P (perform a w).1)
      → (attempts : List A) (w : World) → All P (perform_all perform attempts w).1
  unfolding perform_all
  perform_all_holds perform h [] w = tt
  perform_all_holds perform h (a ∷ attempts) w =
      (h a w, perform_all_holds perform h attempts (perform a w).0)
