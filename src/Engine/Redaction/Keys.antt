-- ===== src/Engine/Redaction/Keys.antt =====
-- What the pattern of keys and values does to a line.
use text.Mathlib.TextLemmas.{cons-append, nil-append, append-nil}
use sandbox_tester.Common.{
  ℕ, suc, ◌+◌, Char, code, String, ◌<>◌, Bool, true, false, not, ◌||◌, ◌&&◌, Option, none, some,
  ◌≡◌, refl, ap, arith, number_eq, ◌==◌, ◌∙◌,
}
use sandbox_tester.Common.Text.{lower, is_space}
use sandbox_tester.Engine.Redaction.{
  Pattern, substitute, keeping, after_drop, redacted, run_length, drop_chars, take_chars,
  is_key_char, is_newline, key_words, any_infix, sensitive_key_value, space_before_value,
  separated_value, has_infix, searching, starts_with,
}

abbrev size : String → ℕ
size String.[] = 0
size (String.◌∷◌ c s) = suc (size s)

-- Every character passes the test.
abbrev pub all_chars : (Char → Bool) → String → Bool
all_chars test String.[] = true
all_chars test (String.◌∷◌ c s) = test c && all_chars test s

run_length-append :
    (test : Char → Bool) (a : String) (c : Char) (s : String)
    → all_chars test a ≡ true
    → test c ≡ false
    → run_length test (a <> String.◌∷◌ c s) ≡ size a
unfolding run_length
run_length-append test String.[] c s h stop = rw (nil-append, stop) refl
run_length-append test (String.◌∷◌ d a) c s h stop =
    rw cons-append (ground (arith, run_length-append test a c s))

run_length_none :
    (test : Char → Bool) (c : Char) (s : String)
    → test c ≡ false
    → run_length test (String.◌∷◌ c s) ≡ 0
unfolding run_length
run_length_none test c s stop = rw stop refl

run_length-whole :
    (test : Char → Bool) (a : String) → all_chars test a ≡ true → run_length test a ≡ size a
unfolding run_length
run_length-whole test String.[] h = refl
run_length-whole test (String.◌∷◌ d a) h = ground (arith, run_length-whole test a)

drop_chars-size : (a s : String) → drop_chars (size a) (a <> s) ≡ s
unfolding drop_chars
drop_chars-size String.[] s = rw nil-append refl
drop_chars-size (String.◌∷◌ c a) s = rw cons-append (drop_chars-size a s)

take_chars-size : (a s : String) → take_chars (size a) (a <> s) ≡ a
unfolding take_chars
take_chars-size String.[] s = refl
take_chars-size (String.◌∷◌ c a) s = rw cons-append (ap (λ t. String.◌∷◌ c t) (take_chars-size a s))

module _ (p : Pattern) where
  -- The part that is kept is written, and the rest is replaced.
  substitute-keeping :
      (a : String) (b : Option Char) (n : ℕ) (d c : Char) (s : String)
      → substitute p b (keeping (suc (size a)) (suc n)) (a <> String.◌∷◌ d (String.◌∷◌ c s))
        ≡ a <> String.◌∷◌ d (redacted <> substitute p (some c) (after_drop n) s)
  unfolding substitute
  substitute-keeping String.[] b n d c s = rw (nil-append, cons-append, nil-append, nil-append) refl
  substitute-keeping (String.◌∷◌ e a) b n d c s =
      rw (cons-append, cons-append, nil-append, cons-append)
        (ap (λ t. String.◌∷◌ e t) (substitute-keeping a (some e) n d c s))

  substitute_kept :
      (b : Option Char) (c : Char) (s : String) (kept dropped : ℕ)
      → p b (String.◌∷◌ c s) ≡ some (suc kept, dropped)
      → substitute p b searching (String.◌∷◌ c s)
        ≡ String.◌∷◌ c (substitute p (some c) (keeping kept dropped) s)
  unfolding substitute
  substitute_kept b c s kept dropped e = rw (e, substitute) (rw (cons-append, nil-append) refl)

  substitute-dropping : (b : Option Char) (s : String) → substitute p b (after_drop (size s)) s ≡ ""
  unfolding substitute
  substitute-dropping b String.[] = refl
  substitute-dropping b (String.◌∷◌ c s) = substitute-dropping (some c) s

-- A separator between a key and its value.
abbrev pub is_separator : Char → Bool
is_separator c = code c == b':' || code c == b'='

module _ (key : String) (sep : Char) (c : Char) (value : String)
    (plain : all_chars is_key_char key ≡ true) (sensitive : any_infix key_words (lower key) ≡ true)
    (separator : is_separator sep ≡ true) (start : is_space c ≡ false)
    (line : all_chars (λ c. not (is_newline c)) (String.◌∷◌ c value) ≡ true) where
  not_key_char : is_key_char sep ≡ false
  not_key_char = ground arith

  not_space : is_space sep ≡ false
  not_space = ground arith

  space_before_value_none : space_before_value (String.◌∷◌ c value) ≡ some 0
  unfolding space_before_value
  space_before_value_none = rw start refl

  separated :
      (n : ℕ)
      → separated_value n (String.◌∷◌ sep (String.◌∷◌ c value)) ≡ some (suc n + 0, suc (size value))
  unfolding separated_value drop_chars
  separated n =
      rw (separator, space_before_value_none, run_length-whole _ (String.◌∷◌ c value) line) refl

  match_here :
      sensitive_key_value none (key <> String.◌∷◌ sep (String.◌∷◌ c value))
      ≡ some (suc (size key + 0) + 0, suc (size value))
  unfolding sensitive_key_value drop_chars
  match_here =
      rw
        (
          run_length-append is_key_char key sep (String.◌∷◌ c value) plain not_key_char,
          drop_chars-size,
          take_chars-size,
          sensitive,
          run_length_none is_space sep (String.◌∷◌ c value) not_space,
        )
        (separated (size key + 0))

  match_whole :
      sensitive_key_value none (key <> String.◌∷◌ sep (String.◌∷◌ c value))
      ≡ some (suc (size key), suc (size value))
  match_whole =
      let kept : suc (size key + 0) + 0 ≡ suc (size key) = omega arith in
      match_here ∙ ap (λ n. some (n, suc (size value))) kept

abbrev joined : String → Char → Char → String → String
joined key sep c value = key <> String.◌∷◌ sep (String.◌∷◌ c value)

redact_after :
    (d : Char) (key : String) (sep : Char) (c : Char) (value : String)
    → sensitive_key_value none (joined (String.◌∷◌ d key) sep c value)
      ≡ some (suc (suc (size key)), suc (size value))
    → substitute sensitive_key_value none searching (joined (String.◌∷◌ d key) sep c value)
      ≡ String.◌∷◌ d key <> String.◌∷◌ sep redacted
redact_after d key sep c value h =
    rw (cons-append, cons-append)
      (substitute_kept sensitive_key_value none d (joined key sep c value) (suc (size key))
          (suc (size value)) (rw cons-append at h)
        ∙ ap (λ t. String.◌∷◌ d t)
            (substitute-keeping sensitive_key_value key (some d) (size value) sep c value
              ∙ ap (λ t. key <> String.◌∷◌ sep (redacted <> t))
                  (substitute-dropping sensitive_key_value (some c) value)
              ∙ rw append-nil refl))

-- In a line of a key, a separator and a value, where the key has only characters of keys and holds a
-- sensitive word, and the value begins with no white space, the key and the separator stay, and the
-- whole value is replaced.
pub substitute-sensitive_key_value :
    (key : String) (sep c : Char) (value : String)
    → all_chars is_key_char key ≡ true
    → any_infix key_words (lower key) ≡ true
    → is_separator sep ≡ true
    → is_space c ≡ false
    → all_chars (λ c. not (is_newline c)) (String.◌∷◌ c value) ≡ true
    → substitute sensitive_key_value none searching (key <> String.◌∷◌ sep (String.◌∷◌ c value))
      ≡ key <> String.◌∷◌ sep "[REDACTED]"
unfolding any_infix has_infix lower starts_with
substitute-sensitive_key_value String.[] sep c value plain sensitive separator start line =
    cc sensitive
substitute-sensitive_key_value (String.◌∷◌ d key) sep c value plain sensitive separator start line =
    redact_after d key sep c value
      (match_whole (String.◌∷◌ d key) sep c value plain sensitive separator start line)
