-- ===== src/Engine/Redaction/Left.antt =====
-- The tokens of `_TOKEN_PATTERNS` in redacted evidence.
use text.Mathlib.TextLemmas.{cons-append, nil-append}
use sandbox_tester.Common.{
  Char, code, String, Bool, true, false, none, some, ◌≡◌, refl, is_some, arith, number_eq, ◌==◌,
  All, List, ◌∷◌, [],
}
use sandbox_tester.Engine.Redaction.{
  TokenPattern, token, substitute, searching, is_boundary, is_word, aws, google, anthropic, github,
  github_fine_grained, hugging_face, is_upper_or_digit, is_word_or_dash, openai, redact_evidence,
  redact_keys, token_patterns,
}
use sandbox_tester.Engine.Redaction.Tokens.{
  has_token, no_bracket, is_some-token_length_head, substitute_none,
}
use sandbox_tester.Engine.Redaction.Passes.{
  NotFirst, IsApart, EndsBefore, is_some-token, own_pass, later_pass,
}

module _ (d : Char) (h : String) (tail : Char → Bool) where
  abbrev pattern_of : TokenPattern
  pattern_of = record { head = String.◌∷◌ d h; tail = tail }

  not_first : (c : Char) → (code c == code d) ≡ false → NotFirst pattern_of c
  not_first c e b s = rw (is_some-token, is_some-token_length_head) (ground arith)

  within :
      (c : Char)
      → is_boundary (some c) ≡ false
      → (s : String) → is_some (token pattern_of (some c) s) ≡ false
  within c e s = rw (is_some-token, e) refl

  apart :
      no_bracket (String.◌∷◌ d h) ≡ true
      → tail "[" ≡ false
      → (code "[" == code d) ≡ false
      → (code "R" == code d) ≡ false
      → IsApart pattern_of
  unfolding has_token
  apart hh ht e0 e1 = (
    hh,
    ht,
    λ b s.
        rw
          (
            cons-append,
            cons-append,
            cons-append,
            cons-append,
            cons-append,
            cons-append,
            cons-append,
            cons-append,
            cons-append,
            cons-append,
            nil-append,
            not_first "[" e0,
            not_first "R" e1,
            within "R" refl,
            within "E" refl,
            within "D" refl,
            within "A" refl,
            within "C" refl,
            within "T" refl,
            within "E" refl,
            within "D" refl,
          )
          refl,
  )

  ends_before :
      is_word d ≡ true
      → (q : TokenPattern) → ((c : Char) → q.tail c ≡ false → is_word c ≡ false)
      → EndsBefore pattern_of q
  ends_before word q covers c out = let other = covers c out in not_first c (ground arith)

ends_word : (c : Char) → is_word c ≡ false → is_word c ≡ false
ends_word c h = h

ends_word_or_dash : (c : Char) → is_word_or_dash c ≡ false → is_word c ≡ false
ends_word_or_dash c h = ground arith

abbrev pass : TokenPattern → String → String
pass t s = substitute (token t) none searching s

abbrev pub Without : TokenPattern → String → Type 0
Without t s = has_token t none s ≡ false

-- A pattern whose tokens end only before a character that is in no word.
abbrev EndsWord : TokenPattern → Type 0
EndsWord t = (c : Char) → t.tail c ≡ false → is_word c ≡ false

-- How a token pattern meets the others.
abbrev IsToken : TokenPattern → Type 0
IsToken p = IsApart p × ((q : TokenPattern) → EndsWord q → EndsBefore p q)

module _ (d : Char) (h : String) (tail : Char → Bool) where
  is_token :
      no_bracket (String.◌∷◌ d h) ≡ true
      → tail "[" ≡ false
      → (code "[" == code d) ≡ false
      → (code "R" == code d) ≡ false
      → is_word d ≡ true
      → IsToken (pattern_of d h tail)
  is_token hh ht e0 e1 word = (apart d h tail hh ht e0 e1, ends_before d h tail word)

anthropic-IsToken : IsToken anthropic
unfolding number_eq
anthropic-IsToken = is_token "s" "k-ant-" is_word_or_dash refl refl refl refl refl

openai-IsToken : IsToken openai
unfolding number_eq
openai-IsToken = is_token "s" "k-" is_word_or_dash refl refl refl refl refl

github-IsToken : IsToken github
unfolding number_eq
github-IsToken = is_token "g" "hp_" is_word refl refl refl refl refl

github_fine_grained-IsToken : IsToken github_fine_grained
unfolding number_eq
github_fine_grained-IsToken = is_token "g" "ithub_pat_" is_word refl refl refl refl refl

aws-IsToken : IsToken aws
unfolding number_eq
aws-IsToken = is_token "A" "KIA" is_upper_or_digit refl refl refl refl refl

google-IsToken : IsToken google
unfolding number_eq
google-IsToken = is_token "A" "Iza" is_word_or_dash refl refl refl refl refl

hugging_face-IsToken : IsToken hugging_face
unfolding number_eq
hugging_face-IsToken = is_token "h" "f_" is_word_or_dash refl refl refl refl refl

aws_ends : EndsBefore aws aws
aws_ends c h = not_first "A" "KIA" is_upper_or_digit c (ground arith)

-- `own` for a pattern that ends at a word's end.
own : (p : TokenPattern) → IsToken p → EndsWord p → (s : String) → Without p (pass p s)
own p known ends = own_pass p known.0 (known.1 p ends)

later :
    (p q : TokenPattern)
    → IsToken p
    → EndsWord q
    → (s : String) → Without p s
    → Without p (pass q s)
later p q known ends = later_pass p q known.0 (known.1 q ends)

-- The first four passes, and the last two.
abbrev before_aws : String → String
before_aws s = pass github_fine_grained (pass github (pass openai (pass anthropic s)))

abbrev after_aws : String → String
after_aws s = pass hugging_face (pass google s)

after_aws-Without :
    (p : TokenPattern) → IsToken p → (s : String) → Without p s → Without p (after_aws s)
after_aws-Without p known s h =
    later p hugging_face known ends_word_or_dash _ (later p google known ends_word_or_dash s h)

before_aws-Without-aws : (s : String) → Without aws s → Without aws (before_aws s)
before_aws-Without-aws s h = later aws github_fine_grained aws-IsToken ends_word _ (
    later aws github aws-IsToken ends_word _ (
      later aws openai aws-IsToken ends_word_or_dash _
        (later aws anthropic aws-IsToken ends_word_or_dash s h)))

-- Redacted evidence holds no AWS, Google or Hugging Face key where a word begins.
pub has_token-redact_evidence :
    (evidence : String)
    → Without aws (redact_evidence evidence)
      × Without google (redact_evidence evidence)
      × Without hugging_face (redact_evidence evidence)
unfolding redact_evidence
has_token-redact_evidence evidence =
    let s = pass aws (before_aws (redact_keys evidence)) in
    (
      after_aws-Without aws aws-IsToken s (own_pass aws aws-IsToken.0 aws_ends _),
      later google hugging_face google-IsToken ends_word_or_dash _
          (own google google-IsToken ends_word_or_dash s),
      own hugging_face hugging_face-IsToken ends_word_or_dash _,
    )

abbrev first_four : List TokenPattern
first_four = anthropic ∷ openai ∷ github ∷ github_fine_grained ∷ []

before_aws_lem : (s : String) → All (λ t. Without t (before_aws s)) first_four
before_aws_lem s = (
  later anthropic github_fine_grained anthropic-IsToken ends_word _ (
      later anthropic github anthropic-IsToken ends_word _ (
        later anthropic openai anthropic-IsToken ends_word_or_dash _
          (own anthropic anthropic-IsToken ends_word_or_dash s))),
  (
    later openai github_fine_grained openai-IsToken ends_word _ (
        later openai github openai-IsToken ends_word _
          (own openai openai-IsToken ends_word_or_dash (pass anthropic s))),
    (
      later github github_fine_grained github-IsToken ends_word _
          (own github github-IsToken ends_word (pass openai (pass anthropic s))),
      (own github_fine_grained github_fine_grained-IsToken ends_word _, tt),
    ),
  ),
)

-- If no AWS key stands in the evidence once private keys and the values of sensitive keys are
-- replaced, the redacted evidence holds no token of any of the seven patterns where a word begins.
pub has_token-redact_evidence_no_aws :
    (evidence : String)
    → Without aws (redact_keys evidence)
    → All (λ t. Without t (redact_evidence evidence)) token_patterns
unfolding redact_evidence
has_token-redact_evidence_no_aws evidence h =
    let s = before_aws (redact_keys evidence) in
    let unchanged = substitute_none aws none s (before_aws-Without-aws _ h) in
    let four = before_aws_lem (redact_keys evidence) in
    let (no_aws, no_google, no_hugging_face) = has_token-redact_evidence evidence in
    let kept : (p : TokenPattern) → IsToken p → Without p s → Without p (after_aws (pass aws s)) =
      λ p known without. after_aws-Without p known _ (rw unchanged without) in
    (
      kept anthropic anthropic-IsToken four.0,
      (
        kept openai openai-IsToken four.1.0,
        (
          kept github github-IsToken four.1.1.0,
          (
            kept github_fine_grained github_fine_grained-IsToken four.1.1.1.0,
            (no_aws, (no_google, (no_hugging_face, tt))),
          ),
        ),
      ),
    )
