-- ===== src/Engine/Redaction.antt =====
-- The redaction of evidence: src/sandbox_tester/redaction.py. A regular expression is a function that
-- says whether it matches at a place of a text, given the character before; `re.sub` goes through the
-- text once. Letters, digits and white space are those of ASCII.
pub mod Tokens
pub mod Passes
pub mod Keys
pub mod Left
use mathlib.Core.Option.{map as option_map}
use sandbox_tester.Common.{
  ℕ, zero, suc, ◌+◌, ◌-◌, Char, code, String, ◌<>◌, Bool, true, false, not, ◌&&◌, ◌||◌, Option,
  none, some, List, [], ◌∷◌, ◌==◌, number_eq, leb, if◌then◌else◌,
}
use sandbox_tester.Common.Text.{is_space, lower}

-- What a match keeps of the text, and what it replaces after that; it replaces one character or more.
abbrev pub Span : Type 0
Span = ℕ × ℕ

abbrev pub Pattern : Type 0
Pattern = Option Char → String → Option Span

-- Where `re.sub` is: outside a match, in the part of a match that is kept, or in the part that is
-- replaced, with what is left of the parts.
pub data Mode : Type 0 where
  searching : Mode
  keeping : ℕ → ℕ → Mode
  dropping : ℕ → Mode

abbrev pub redacted : String
redacted = "[REDACTED]"

abbrev pub after_drop : ℕ → Mode
after_drop zero = searching
after_drop (suc n) = dropping n

-- What becomes of a character with which `kept` characters and then `dropped` ones begin.
abbrev pub written_for : Span → Char → String
written_for (zero, dropped) c = redacted
written_for (suc kept, dropped) c = String.◌∷◌ c ""

abbrev pub mode_after : Span → Mode
mode_after (zero, zero) = searching
mode_after (zero, suc n) = after_drop n
mode_after (suc kept, dropped) = keeping kept dropped

-- `pattern.sub("[REDACTED]", text)`, where the replacement repeats the part that is kept.
unfoldable pub substitute : Pattern → Option Char → Mode → String → String
substitute p before mode String.[] = ""
substitute p before searching (String.◌∷◌ c s) = elim (p before (String.◌∷◌ c s)) [
  | none ↦ String.◌∷◌ c (substitute p (some c) searching s)
  | some span ↦ written_for span c <> substitute p (some c) (mode_after span) s
]
substitute p before (keeping kept dropped) (String.◌∷◌ c s) =
    written_for (kept, dropped) c <> substitute p (some c) (mode_after (kept, dropped)) s
substitute p before (dropping n) (String.◌∷◌ c s) = substitute p (some c) (after_drop n) s

abbrev pub is_upper : Char → Bool
is_upper c = leb b'A' (code c) && leb (code c) b'Z'

abbrev pub is_lower : Char → Bool
is_lower c = leb b'a' (code c) && leb (code c) b'z'

abbrev pub is_digit : Char → Bool
is_digit c = leb b'0' (code c) && leb (code c) b'9'

-- `[A-Za-z0-9_]`, the characters between which `\b` finds no boundary.
abbrev pub is_word : Char → Bool
is_word c = is_upper c || (is_lower c || (is_digit c || code c == b'_'))

-- `[A-Za-z0-9_-]`
abbrev pub is_word_or_dash : Char → Bool
is_word_or_dash c = is_word c || code c == b'-'

-- `[A-Z0-9]`
abbrev pub is_upper_or_digit : Char → Bool
is_upper_or_digit c = is_upper c || is_digit c

abbrev pub is_newline : Char → Bool
is_newline c = code c == b'\n' || code c == b'\r'

-- The length of a text's longest beginning of such characters, and what comes after it.
unfoldable pub run_length : (Char → Bool) → String → ℕ
run_length test String.[] = 0
run_length test (String.◌∷◌ c s) = let n = run_length test s in if test c then suc n else 0

unfoldable pub drop_chars : ℕ → String → String
drop_chars zero s = s
drop_chars (suc n) String.[] = ""
drop_chars (suc n) (String.◌∷◌ c s) = drop_chars n s

unfoldable pub take_chars : ℕ → String → String
take_chars zero s = ""
take_chars (suc n) String.[] = ""
take_chars (suc n) (String.◌∷◌ c s) = String.◌∷◌ c (take_chars n s)

abbrev pub at_least_one : ℕ → Option ℕ
at_least_one zero = none
at_least_one (suc n) = some (suc n)

abbrev pub one_more : Option ℕ → Option ℕ
one_more none = none
one_more (some n) = some (suc n)

-- A token: the text that it begins with and the characters that follow, of which there is one or more.
pub record TokenPattern : Type 0 where
  pub head : String
  pub tail : Char → Bool

unfoldable pub token_length : String → (Char → Bool) → String → Option ℕ
token_length String.[] tail s = at_least_one (run_length tail s)
token_length (String.◌∷◌ d head) tail String.[] = none
token_length (String.◌∷◌ d head) tail (String.◌∷◌ c s) =
    let more = token_length head tail s in if code c == code d then one_more more else none

-- `\b` before a word character.
abbrev pub is_boundary : Option Char → Bool
is_boundary none = true
is_boundary (some c) = not (is_word c)

abbrev pub whole_match : Option ℕ → Option Span
whole_match none = none
whole_match (some n) = some (0, n)

unfoldable pub token : TokenPattern → Pattern
unfolding token_length run_length
token t before s = if is_boundary before then whole_match (token_length t.head t.tail s) else none

abbrev pub anthropic : TokenPattern
anthropic = record { head = "sk-ant-"; tail = is_word_or_dash }

abbrev pub openai : TokenPattern
openai = record { head = "sk-"; tail = is_word_or_dash }

abbrev pub github : TokenPattern
github = record { head = "ghp_"; tail = is_word }

abbrev pub github_fine_grained : TokenPattern
github_fine_grained = record { head = "github_pat_"; tail = is_word }

abbrev pub aws : TokenPattern
aws = record { head = "AKIA"; tail = is_upper_or_digit }

abbrev pub google : TokenPattern
google = record { head = "AIza"; tail = is_word_or_dash }

abbrev pub hugging_face : TokenPattern
hugging_face = record { head = "hf_"; tail = is_word_or_dash }

-- `_TOKEN_PATTERNS`
abbrev pub token_patterns : List TokenPattern
token_patterns =
    anthropic ∷ openai ∷ github ∷ github_fine_grained ∷ aws ∷ google ∷ hugging_face ∷ []

-- The text starts so.
unfoldable pub starts_with : String → String → Bool
starts_with String.[] s = true
starts_with (String.◌∷◌ d w) String.[] = false
starts_with (String.◌∷◌ d w) (String.◌∷◌ c s) = (code c == code d) && starts_with w s

unfoldable pub has_infix : String → String → Bool
unfolding starts_with
has_infix w String.[] = starts_with w ""
has_infix w (String.◌∷◌ c s) = starts_with w (String.◌∷◌ c s) || has_infix w s

-- `[A-Z ]*PRIVATE KEY-----`, and its length.
unfoldable pub key_line_end : String → Option ℕ
unfolding starts_with
key_line_end String.[] = none
key_line_end (String.◌∷◌ c s) =
    let more = key_line_end s in
    if starts_with "PRIVATE KEY-----" (String.◌∷◌ c s)
    then some 16
    else if is_upper c || code c == b' '
    then one_more more
    else none

abbrev pub plus : ℕ → Option ℕ → Option ℕ
plus n none = none
plus n (some m) = some (n + m)

unfoldable pub begin_line : String → Option ℕ
unfolding key_line_end drop_chars starts_with
begin_line s =
    if starts_with "-----BEGIN " s then plus 11 (key_line_end (drop_chars 11 s)) else none

unfoldable pub end_line : String → Option ℕ
unfolding key_line_end drop_chars starts_with
end_line s = if starts_with "-----END " s then plus 9 (key_line_end (drop_chars 9 s)) else none

-- `.*?` and the line at the end.
unfoldable pub up_to_end_line : String → Option ℕ
unfolding end_line
up_to_end_line String.[] = none
up_to_end_line (String.◌∷◌ c s) =
    let more = up_to_end_line s in
    elim (end_line (String.◌∷◌ c s)) [ none ↦ one_more more | some n ↦ some n ]

-- `_PRIVATE_KEY_PATTERN`
unfoldable pub private_key : Pattern
unfolding begin_line up_to_end_line drop_chars
private_key before s = elim (begin_line s) [
  | none ↦ none
  | some n ↦ whole_match (plus n (up_to_end_line (drop_chars n s)))
]

-- `[A-Z0-9_(). -]`, in either case.
abbrev pub is_key_char : Char → Bool
is_key_char c =
    is_word c
    || (code c == b'('
        || (code c == b')' || (code c == b'.' || (code c == b' ' || code c == b'-'))))

abbrev pub key_words : List String
key_words =
    "apikey" ∷ "api_key" ∷ "api key" ∷ "api-key" ∷ "key" ∷ "token" ∷ "secret" ∷ "password" ∷ "pass"
    ∷ "credential" ∷ "auth" ∷ "cookie" ∷ "session" ∷ "private" ∷ []

unfoldable pub any_infix : List String → String → Bool
unfolding has_infix
any_infix [] s = false
any_infix (w ∷ ws) s = has_infix w s || any_infix ws s

-- `^`
abbrev pub at_line_start : Option Char → Bool
at_line_start none = true
at_line_start (some c) = code c == b'\n'

-- `\s*` before `[^\r\n]`: the length of the white space, of which as much is taken as leaves a character.
unfoldable pub space_before_value : String → Option ℕ
space_before_value String.[] = none
space_before_value (String.◌∷◌ c s) =
    let more = space_before_value s in
    if is_space c
    then elim more [ none ↦ if is_newline c then none else some 0 | some n ↦ some (suc n) ]
    else some 0

-- The separator, and the value after it.
abbrev pub value_span : ℕ → Option ℕ → String → Option Span
value_span prefix none s = none
value_span prefix (some n) s =
    some (prefix + n, run_length (λ c. not (is_newline c)) (drop_chars n s))

unfoldable pub separated_value : ℕ → String → Option Span
unfolding space_before_value run_length drop_chars
separated_value prefix String.[] = none
separated_value prefix (String.◌∷◌ c s) =
    if code c == b':' || code c == b'='
    then value_span (suc prefix) (space_before_value s) s
    else none

-- `_SENSITIVE_KEY_VALUE_PATTERN`: neither separator is a character of a key, so that the key is all that
-- comes before the white space.
unfoldable pub sensitive_key_value : Pattern
unfolding any_infix separated_value run_length drop_chars take_chars
sensitive_key_value before s =
    let key = run_length is_key_char s in
    let rest = drop_chars key s in
    let space = run_length is_space rest in
    if at_line_start before && any_infix key_words (lower (take_chars key s))
    then separated_value (key + space) (drop_chars space rest)
    else none

abbrev pub redact_all : List TokenPattern → String → String
redact_all [] s = s
redact_all (t ∷ ts) s = redact_all ts (substitute (token t) none searching s)

-- The first two statements of `redact_evidence`.
unfoldable pub redact_keys : String → String
unfolding substitute private_key sensitive_key_value
redact_keys evidence =
    substitute sensitive_key_value none searching (substitute private_key none searching evidence)

unfoldable pub redact_evidence : String → String
unfolding redact_keys substitute token
redact_evidence evidence = redact_all token_patterns (redact_keys evidence)
