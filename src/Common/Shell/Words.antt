-- ===== src/Common/Shell/Words.antt =====
-- How a POSIX shell splits a line into words and redirections: quotes and plain characters; what a
-- shell would expand, or otherwise act on, is refused.
use mathlib.Core.List.{map}
use text.Mathlib.TextEquality.{Char-path}
use text.Mathlib.TextLemmas.{nil-append, cons-append, append-nil, append_assoc, cons≢nil}
use sandbox_tester.Common.{
  Char, code, String, ◌<>◌, ◌≡◌, refl, ◌∙◌, Bool, true, false, not, Option, none, some, List, [],
  ◌∷◌, ◌==◌, string_eq, number_eq, if◌then◌else◌, Bool-cases, inl, inr, arith,
}
use sandbox_tester.Common.Shell.{is_safe, is_quote, quote, quote_all}
use sandbox_tester.Common.Text.{any_char, replace, join}

pub data Token : Type 0 where
  word : String → Token
  redirect : Token

pub data Kind : Type 0 where
  space greater single_quote double_quote plain special : Kind

unfoldable pub kind : Char → Kind
kind c =
    if code c == 32
    then space
    else if code c == 62
    then greater
    else if code c == 39
    then single_quote
    else if code c == 34
    then double_quote
    else if is_safe c
    then plain
    else special

pub data Mode : Type 0 where
  between inside single double : Mode

-- One more character at the start of the word that is being read.
abbrev pub grow : Char → Option (List Token) → Option (List Token)
grow c (some (word w ∷ ts)) = some (word (String.◌∷◌ c w) ∷ ts)
grow c _ = none

abbrev pub add : Token → Option (List Token) → Option (List Token)
add t none = none
add t (some ts) = some (t ∷ ts)

unfoldable pub lex : Mode → String → Option (List Token)
lex between String.[] = some []
lex between (String.◌∷◌ c s) = elim (kind c) [
  | space ↦ lex between s
  | greater ↦ add redirect (lex between s)
  | single_quote ↦ lex single s
  | double_quote ↦ lex double s
  | plain ↦ grow c (lex inside s)
  | special ↦ none
]
lex inside String.[] = some (word "" ∷ [])
lex inside (String.◌∷◌ c s) = elim (kind c) [
  | space ↦ add (word "") (lex between s)
  | greater ↦ add (word "") (add redirect (lex between s))
  | single_quote ↦ lex single s
  | double_quote ↦ lex double s
  | plain ↦ grow c (lex inside s)
  | special ↦ none
]
lex single String.[] = none
lex single (String.◌∷◌ c s) = elim (kind c) [
  | single_quote ↦ lex inside s
  | _ ↦ grow c (lex single s)
]
lex double String.[] = none
lex double (String.◌∷◌ c s) = elim (kind c) [
  | double_quote ↦ lex inside s
  | special ↦ none
  | _ ↦ grow c (lex double s)
]

-- The tokens of a line.
unfoldable pub shell_tokens : String → Option (List Token)
unfolding lex kind is_safe number_eq
shell_tokens line = lex between line

abbrev grow_all : String → Option (List Token) → Option (List Token)
grow_all String.[] r = r
grow_all (String.◌∷◌ c s) r = grow c (grow_all s r)

kind_plain : (c : Char) → is_safe c ≡ true → kind c ≡ plain
unfolding kind is_safe
kind_plain c h = ground arith

abbrev is_single : Kind → Bool
is_single single_quote = true
is_single _ = false

is_single-kind : (c : Char) → is_single (kind c) ≡ is_quote c
unfolding kind
is_single-kind c = ground arith

single_step :
    (k : Kind) (c : Char) (s : String)
    → kind c ≡ k
    → is_single k ≡ false
    → lex single (String.◌∷◌ c s) ≡ grow c (lex single s)
unfolding lex
single_step space c s h n = rw (h, lex) refl
single_step greater c s h n = rw (h, lex) refl
single_step single_quote c s h n = cc
single_step double_quote c s h n = rw (h, lex) refl
single_step plain c s h n = rw (h, lex) refl
single_step special c s h n = rw (h, lex) refl

-- A quoted text, up to and with its closing quote.
abbrev quoted : String → String → String
quoted s rest = replace is_quote "'\"'\"'" s <> ("'" <> rest)

lex-escaped : (s : String) → lex single ("'\"'\"'" <> s) ≡ grow (Char.char 39 tt) (lex single s)
unfolding lex kind number_eq
lex-escaped s =
    rw (cons-append, cons-append, cons-append, cons-append, cons-append, nil-append) refl

lex-quoted : (s rest : String) → lex single (quoted s rest) ≡ grow_all s (lex inside rest)
unfolding lex kind replace number_eq
lex-quoted String.[] rest = rw (nil-append, cons-append, nil-append) refl
lex-quoted (String.◌∷◌ c s) rest = elim (Bool-cases (is_quote c)) [
  | inl t ↦
      rw
        (
          t,
          append_assoc,
          lex-escaped (quoted s rest),
          lex-quoted s rest,
          Char-path c (Char.char 39 tt) (ground arith),
        )
        refl
  | inr f ↦
      rw
        (
          f,
          cons-append,
          single_step (kind c) c (quoted s rest) refl (is_single-kind c ∙ f),
          lex-quoted s rest,
        )
        refl
]

lex-plain :
    (s rest : String)
    → any_char (λ c. not (is_safe c)) s ≡ false
    → lex inside (s <> rest) ≡ grow_all s (lex inside rest)
unfolding lex any_char
lex-plain String.[] rest h = rw nil-append refl
lex-plain (String.◌∷◌ c s) rest h =
    rw (cons-append, lex, kind_plain c (ground arith), lex-plain s rest (ground arith)) refl

abbrev is_unsafe : Char → Bool
is_unsafe c = not (is_safe c)

equal_texts : (s t : String) → (s == t) ≡ true → s ≡ t
equal_texts s t h = ground arith

cons_not_empty : (c : Char) (s : String) → (String.◌∷◌ c s == "") ≡ false
cons_not_empty c s = elim (Bool-cases (String.◌∷◌ c s == "")) [
  | inl t ↦ elim (cons≢nil (equal_texts (String.◌∷◌ c s) "" t)) [ ]
  | inr f ↦ f
]

quote_unsafe :
    (c : Char) (s : String)
    → any_char is_unsafe (String.◌∷◌ c s) ≡ true
    → quote (String.◌∷◌ c s) ≡ "'" <> (replace is_quote "'\"'\"'" (String.◌∷◌ c s) <> "'")
unfolding quote
quote_unsafe c s h = rw (quote, cons_not_empty c s, h) refl

quote_plain :
    (c : Char) (s : String)
    → any_char is_unsafe (String.◌∷◌ c s) ≡ false
    → quote (String.◌∷◌ c s) ≡ String.◌∷◌ c s
unfolding quote
quote_plain c s h = rw (quote, cons_not_empty c s, h) refl

open_quote :
    (body rest : String)
    → ("'" <> (body <> "'")) <> rest ≡ String.◌∷◌ (Char.char 39 tt) (body <> ("'" <> rest))
open_quote body rest = rw (cons-append, nil-append, cons-append, append_assoc) refl

lex-quote : (w rest : String) → lex between (quote w <> rest) ≡ grow_all w (lex inside rest)
unfolding lex quote kind any_char number_eq string_eq
lex-quote String.[] rest = rw (cons-append, cons-append, nil-append) refl
lex-quote (String.◌∷◌ c s) rest = elim (Bool-cases (any_char is_unsafe (String.◌∷◌ c s))) [
  | inl t ↦ rw (quote_unsafe c s t, open_quote) (lex-quoted (String.◌∷◌ c s) rest)
  | inr f ↦
      rw
        (
          quote_plain c s f,
          cons-append,
          lex,
          kind_plain c (ground arith),
          lex-plain s rest (ground arith),
        )
        refl
]

grow_all_word :
    (w v : String) (ts : List Token) → grow_all w (some (word v ∷ ts)) ≡ some (word (w <> v) ∷ ts)
grow_all_word String.[] v ts = rw nil-append refl
grow_all_word (String.◌∷◌ c w) v ts = rw (grow_all_word w v ts, cons-append) refl

lex-space : (s : String) → lex inside (" " <> s) ≡ add (word "") (lex between s)
unfolding lex kind number_eq
lex-space s = rw (cons-append, nil-append) refl

-- A quoted word, and what stands behind it after a space.
pub lex-quote_space :
    (w s : String) (ts : List Token)
    → lex between s ≡ some ts
    → lex between (quote w <> (" " <> s)) ≡ some (word w ∷ ts)
lex-quote_space w s ts h =
    lex-quote w (" " <> s) ∙ rw (lex-space s, h, grow_all_word w "" ts, append-nil) refl

pub lex-quote_end : (w : String) → lex between (quote w) ≡ some (word w ∷ [])
unfolding lex
lex-quote_end w =
    rw (← append-nil (quote w)) (lex-quote w "" ∙ rw (grow_all_word w "" [], append-nil) refl)

-- A shell reads a line of quoted words back as these words, whatever they hold.
pub lex-join :
    (words : List String) → lex between (join " " (quote_all words)) ≡ some (map word words)
unfolding join quote_all lex
lex-join [] = refl
lex-join (w ∷ []) = lex-quote_end w
lex-join (w ∷ v ∷ words) = lex-quote_space w _ _ (lex-join (v ∷ words))
