-- ===== src/Engine/Redaction/Tokens.antt =====
-- What the token patterns leave of a text.
use text.Mathlib.TextLemmas.{cons-append}
use sandbox_tester.Common.{
  ℕ, zero, suc, Char, code, String, ◌<>◌, Bool, true, false, ◌||◌, ◌&&◌, Option, none, some, ◌≡◌,
  refl, ap, sym, ◌∙◌, inl, inr, is_some, arith, number_eq, not, ◌==◌, Bool-cases, Option-cases, ◌≢◌,
}
use sandbox_tester.Engine.Redaction.{
  TokenPattern, token, token_length, substitute, searching, after_drop, redacted, run_length,
  is_boundary, Pattern, Span, at_least_one, one_more, whole_match,
}

-- Somewhere the pattern matches.
unfoldable pub has_token : TokenPattern → Option Char → String → Bool
has_token t before String.[] = false
has_token t before (String.◌∷◌ c s) =
    is_some (token t before (String.◌∷◌ c s)) || has_token t (some c) s

-- What a replacement begins with is in no token.
abbrev pub no_bracket : String → Bool
no_bracket String.[] = true
no_bracket (String.◌∷◌ d h) = not (code d == b'[') && no_bracket h

-- After `n` characters the text ends, or goes on with a character that is none of the pattern's tail.
abbrev pub Clear : (Char → Bool) → ℕ → String → Type 0
Clear tail zero String.[] = Unit
Clear tail zero (String.◌∷◌ c s) = tail c ≡ false
Clear tail (suc n) String.[] = Unit
Clear tail (suc n) (String.◌∷◌ c s) = Clear tail n s

-- Wherever the first pattern matches, the second does.
abbrev pub Covered : TokenPattern → TokenPattern → Option Char → String → Type 0
Covered p q before String.[] = Unit
Covered p q before (String.◌∷◌ c s) =
    (token q before (String.◌∷◌ c s) ≡ none → is_some (token p before (String.◌∷◌ c s)) ≡ false)
    × Covered p q (some c) s

pub Covered-refl : (p : TokenPattern) (before : Option Char) (s : String) → Covered p p before s
Covered-refl p before String.[] = tt
Covered-refl p before (String.◌∷◌ c s) = (λ h. rw h, Covered-refl p (some c) s)

pub Covered-of_none :
    (p q : TokenPattern) (before : Option Char) (s : String)
    → has_token p before s ≡ false
    → Covered p q before s
unfolding has_token
Covered-of_none p q before String.[] h = tt
Covered-of_none p q before (String.◌∷◌ c s) h =
    (λ _. ground arith, Covered-of_none p q (some c) s (ground arith))

module _ (p : Pattern) (before : Option Char) (c : Char) (s : String) where
  pub substitute_unmatched :
      p before (String.◌∷◌ c s) ≡ none
      → substitute p before searching (String.◌∷◌ c s)
        ≡ String.◌∷◌ c (substitute p (some c) searching s)
  unfolding substitute
  substitute_unmatched e = rw (e, substitute) refl

  pub substitute_matched :
      (n : ℕ)
      → p before (String.◌∷◌ c s) ≡ some (0, suc n)
      → substitute p before searching (String.◌∷◌ c s)
        ≡ redacted <> substitute p (some c) (after_drop n) s
  unfolding substitute
  substitute_matched n e = rw (e, substitute) refl

-- A text without a token is left as it is.
pub substitute_none :
    (q : TokenPattern) (before : Option Char) (s : String)
    → has_token q before s ≡ false
    → substitute (token q) before searching s ≡ s
unfolding substitute has_token
substitute_none q before String.[] h = refl
substitute_none q before (String.◌∷◌ c s) h =
    elim (Option-cases (token q before (String.◌∷◌ c s))) [
      | inl e ↦
          substitute_unmatched (token q) before c s e
          ∙ ap (λ t. String.◌∷◌ c t) (substitute_none q (some c) s (ground arith))
      | inr (a, e) ↦ cc (rw e at h)
    ]

Clear-run_length : (tail : Char → Bool) (s : String) → Clear tail (run_length tail s) s
unfolding run_length
Clear-run_length tail String.[] = tt
Clear-run_length tail (String.◌∷◌ c s) = elim (Bool-cases (tail c)) [
  | inl e ↦ rw e (Clear-run_length tail s)
  | inr e ↦ rw e e
]

at_least_one_eq : (m n : ℕ) → at_least_one m ≡ some n → m ≡ n
at_least_one_eq zero n h = cc h
at_least_one_eq (suc m) n h = cc h

one_more_eq : (o : Option ℕ) (n : ℕ) → one_more o ≡ some n → (m : ℕ) × (o ≡ some m) × (n ≡ suc m)
one_more_eq none n h = cc h
one_more_eq (some m) n h = (m, refl, cc h)

Clear-token_length :
    (head : String) (tail : Char → Bool) (s : String) (n : ℕ)
    → token_length head tail s ≡ some n
    → Clear tail n s
unfolding token_length
Clear-token_length String.[] tail s n h = rw (sym (at_least_one_eq _ n h)) (Clear-run_length tail s)
Clear-token_length (String.◌∷◌ d head) tail String.[] n h = cc h
Clear-token_length (String.◌∷◌ d head) tail (String.◌∷◌ c s) n h =
    elim (Bool-cases (code c == code d)) [
      | inl e ↦
          let (m, found, same) = one_more_eq (token_length head tail s) n (rw e at h) in
          rw same (Clear-token_length head tail s m found)
      | inr e ↦ cc (rw e at h)
    ]

at_least_one_nonzero : (m : ℕ) → at_least_one m ≢ some 0
at_least_one_nonzero zero h = cc h
at_least_one_nonzero (suc m) h = omega (arith, at_least_one_eq (suc m) 0 h)

one_more_nonzero : (o : Option ℕ) → one_more o ≢ some 0
one_more_nonzero none h = cc h
one_more_nonzero (some m) h =
    let (k, same, zero_suc) = one_more_eq (some m) 0 h in omega (arith, zero_suc)

token_length_nonzero :
    (head : String) (tail : Char → Bool) (s : String) → token_length head tail s ≢ some 0
unfolding token_length
token_length_nonzero String.[] tail s h = at_least_one_nonzero _ h
token_length_nonzero (String.◌∷◌ d head) tail String.[] h = cc h
token_length_nonzero (String.◌∷◌ d head) tail (String.◌∷◌ c s) h =
    elim (Bool-cases (code c == code d)) [
      | inl e ↦ one_more_nonzero _ (rw e at h)
      | inr e ↦ cc (rw e at h)
    ]

whole_match_eq :
    (o : Option ℕ) (span : Span)
    → whole_match o ≡ some span
    → (n : ℕ) × (o ≡ some n) × (span ≡ (0, n))
whole_match_eq none span h = cc h
whole_match_eq (some n) span h = (n, refl, cc h)

-- A match begins with a character and ends before one that is none of its tail.
abbrev pub IsTokenSpan : TokenPattern → String → Span → Type 0
IsTokenSpan q s span = (n : ℕ) × (span ≡ (0, suc n)) × Clear q.tail n s

token_span :
    (q : TokenPattern) (c : Char) (s : String) (span : Span) (n : ℕ)
    → token_length q.head q.tail (String.◌∷◌ c s) ≡ some n
    → span ≡ (0, n)
    → IsTokenSpan q s span
token_span q c s span zero found same =
    absurd (token_length_nonzero q.head q.tail (String.◌∷◌ c s) found)
token_span q c s span (suc n) found same =
    (n, same, Clear-token_length q.head q.tail (String.◌∷◌ c s) (suc n) found)

pub token-some :
    (q : TokenPattern) (before : Option Char) (c : Char) (s : String) (span : Span)
    → token q before (String.◌∷◌ c s) ≡ some span
    → IsTokenSpan q s span
unfolding token
token-some q before c s span h = elim (Bool-cases (is_boundary before)) [
  | inl e ↦
      let (n, found, same) =
        whole_match_eq (token_length q.head q.tail (String.◌∷◌ c s)) span (rw e at h) in
      token_span q c s span n found same
  | inr e ↦ cc (rw e at h)
]

is_some-one_more : (o : Option ℕ) → is_some (one_more o) ≡ is_some o
is_some-one_more none = refl
is_some-one_more (some n) = refl

module _ (tail : Char → Bool) (c : Char) (s : String) where
  is_some-token_length_tail : is_some (token_length "" tail (String.◌∷◌ c s)) ≡ tail c
  unfolding token_length run_length
  is_some-token_length_tail = elim (Bool-cases (tail c)) [ inl e ↦ rw e refl | inr e ↦ rw e refl ]

  pub is_some-token_length_head :
      (d : Char) (head : String)
      → is_some (token_length (String.◌∷◌ d head) tail (String.◌∷◌ c s))
        ≡ (code c == code d && is_some (token_length head tail s))
  unfolding token_length
  is_some-token_length_head d head = elim (Bool-cases (code c == code d)) [
    | inl e ↦ rw e (is_some-one_more (token_length head tail s))
    | inr e ↦ rw e refl
  ]

-- No match begins in what a replacement begins with.
is_some-token_length-redacted :
    (head : String) (tail : Char → Bool) (s : String)
    → no_bracket head ≡ true
    → tail "[" ≡ false
    → is_some (token_length head tail (redacted <> s)) ≡ false
is_some-token_length-redacted String.[] tail s hh ht =
    rw (cons-append, is_some-token_length_tail) ht
is_some-token_length-redacted (String.◌∷◌ d head) tail s hh ht =
    rw (cons-append, is_some-token_length_head) (ground arith)

module _ (tail : Char → Bool) where
  abbrev pub AsBefore : String → String → Type 0
  AsBefore after s =
      (head : String)
      → no_bracket head ≡ true
      → is_some (token_length head tail after) ≡ true
      → is_some (token_length head tail s) ≡ true

  pub cons-AsBefore :
      (c : Char) (after s : String)
      → AsBefore after s
      → AsBefore (String.◌∷◌ c after) (String.◌∷◌ c s)
  cons-AsBefore c after s same String.[] hh h =
      rw is_some-token_length_tail (rw is_some-token_length_tail at h)
  cons-AsBefore c after s same (String.◌∷◌ d head) hh h =
      let rest = same head (ground arith) in
      let both = rw is_some-token_length_head at h in
      rw is_some-token_length_head (ground (arith, rest))

  -- What matches after a substitution matched before it.
  pub substitute-AsBefore :
      (q : TokenPattern) (before : Option Char) (s : String)
      → tail "[" ≡ false
      → AsBefore (substitute (token q) before searching s) s
  unfolding substitute
  substitute-AsBefore q before String.[] ht head hh h = h
  substitute-AsBefore q before (String.◌∷◌ c s) ht head hh h =
      elim (Option-cases (token q before (String.◌∷◌ c s))) [
        | inl e ↦
            cons-AsBefore c _ s (substitute-AsBefore q (some c) s ht) head hh
              (rw (substitute_unmatched (token q) before c s e) at h)
        | inr (span, e) ↦
            let (n, same, clear) = token-some q before c s span e in
            let replaced = rw (substitute_matched (token q) before c s n (e ∙ ap some same)) at h in
            cc (replaced, is_some-token_length-redacted head tail _ hh ht)
      ]
