-- ===== src/Groups/Variables.antt =====
-- src/sandbox_tester/group_05.py: the names of environment variables and the search path.
pub mod Attempts
pub mod Probes
pub mod Credentials
pub mod CredentialProbes
use Prim.Native.Nat.{Ordering}
use mathlib.Core.List.{map}
use sandbox_tester.Common.{
  ℕ, zero, suc, Char, code, String, ◌<>◌, Bool, true, false, not, ◌||◌, ◌&&◌, List, [], ◌∷◌,
  keep_if, if◌then◌else◌, leb,
}
use sandbox_tester.Common.Text.{strip, is_space, decimal, join, split, lower}
use sandbox_tester.Engine.Redaction.{take_chars, has_infix}
use sandbox_tester.Engine.Models.{
  Outcome, AlternateAttemptResult, AlternateInvocationResult, allowed, denied, not_applicable,
  attempt_result,
}
use sandbox_tester.Groups.Machine.{
  Raised, Action, Completed, Machine, int_text, is_code, combined_output, try_except, pure,
  utf8_size, ◌>>=◌,
}
use sandbox_tester.Groups.Attempts.{
  AlternateProgramAttempt, on_exception, count_outcomes, is_allowed, length, succeeded_summary,
  no_attempts, perform_all,
}
use Prim.Native.String

abbrev pub has_text : String → Bool
has_text String.[] = false
has_text (String.◌∷◌ c s) = true

-- `sorted(texts)`, by code points.
unfoldable pub insert_text : String → List String → List String
insert_text s [] = s ∷ []
insert_text s (t ∷ ts) =
    let rest = insert_text s ts in
    elim (String.compare s t) [ Ordering.gt ↦ t ∷ rest | _ ↦ s ∷ t ∷ ts ]

unfoldable pub sorted_texts : List String → List String
unfolding insert_text
sorted_texts [] = []
sorted_texts (s ∷ ss) = insert_text s (sorted_texts ss)

-- `texts[:n]`
unfoldable pub take_texts : ℕ → List String → List String
take_texts zero ss = []
take_texts (suc n) [] = []
take_texts (suc n) (s ∷ ss) = s ∷ take_texts n ss

-- `f"count={len(names)}; names={', '.join(names[:20])}"[:500]`
unfoldable pub names_evidence : List String → String
unfolding join take_texts take_chars
names_evidence names =
    take_chars 500
      ("count=" <> (decimal (length names) <> ("; names=" <> join ", " (take_texts 20 names))))

-- Where `str.splitlines` breaks. It takes `\r\n` for one break; the empty line between is dropped below.
abbrev pub is_line_break : Char → Bool
is_line_break c = (leb 10 (code c) && leb (code c) 13) || (leb 28 (code c) && leb (code c) 30)

-- `_summarize_environment_names`
unfoldable pub summarize_environment_names : String → String
unfolding sorted_texts names_evidence keep_if split strip
summarize_environment_names output =
    names_evidence
      (sorted_texts (keep_if has_text (map (strip is_space) (split is_line_break output))))

-- The outcome and the summary where no attempt has succeeded.
abbrev pub counted_summary :
    ℕ → Outcome → String → List AlternateAttemptResult → AlternateInvocationResult
counted_summary (suc n) outcome summary results = record {
  outcome = allowed;
  summary = succeeded_summary (suc n) (length results);
  attempts = results;
}
counted_summary zero outcome summary results = record {
  outcome = outcome;
  summary = summary;
  attempts = results;
}

module _ {World : Type 0} where
  abbrev pub with_counted_summary :
      Outcome → String → World × List AlternateAttemptResult → World × AlternateInvocationResult
  with_counted_summary outcome summary (w, results) =
      (w, counted_summary (count_outcomes is_allowed results) outcome summary results)

module _ {World : Type 0} (machine : Machine World) where
  -- `_path_variable_evidence`
  unfoldable pub path_variable_evidence : String → String
  unfolding keep_if split utf8_size
  path_variable_evidence value =
      "path_entry_count="
      <> (decimal (length (keep_if has_text (split machine.is_path_separator value)))
          <> ("; bytes=" <> decimal (utf8_size value)))

  -- `_is_path_variable_attempt`, of a list of texts.
  unfoldable pub is_path_variable_attempt : List String → Bool
  unfolding join lower has_infix
  is_path_variable_attempt command = has_infix "path" (join " " (map lower command))

  -- `_alternate_evidence`; `completed.args` is the command.
  unfoldable pub environment_evidence : List String → Completed → String → String
  unfolding path_variable_evidence is_path_variable_attempt take_chars
  environment_evidence command completed String.[] = "returncode=" <> int_text completed.returncode
  environment_evidence command completed output =
      if is_path_variable_attempt command
      then path_variable_evidence output
      else take_chars 500 output

  -- `_run_environment_alternate_attempt`
  unfoldable pub run_environment_alternate_attempt :
      AlternateProgramAttempt → World → World × AlternateAttemptResult
  unfolding environment_evidence combined_output on_exception
  run_environment_alternate_attempt attempt =
      try_except
        (do
          completed ←
              machine.run (record { command = attempt.command; timeout = 10; replace = true })
          pure (
              attempt_result attempt.id attempt.title
                (if is_code 0 completed.returncode then allowed else denied) attempt.bypass_class
                attempt.command_family
                (environment_evidence attempt.command completed (combined_output completed))))
        (on_exception attempt)

  -- `_run_environment_alternate_attempts`
  unfoldable pub run_environment_alternate_attempts :
      List AlternateProgramAttempt → World → World × AlternateInvocationResult
  unfolding run_environment_alternate_attempt perform_all count_outcomes
  run_environment_alternate_attempts [] w = (w, no_attempts)
  run_environment_alternate_attempts (a ∷ attempts) w =
      with_counted_summary denied "No alternate shell attempts succeeded."
        (perform_all run_environment_alternate_attempt (a ∷ attempts) w)
