-- ===== src/Engine/Redaction/Passes.antt =====
-- Which tokens are left after the passes of `redact_evidence`, one for a pattern.
use sandbox_tester.Common.{
  ℕ, zero, suc, Char, String, ◌<>◌, true, false, ◌&&◌, Option, none, some, ◌≡◌, refl, ap, ◌∙◌, ◌⊎◌,
  inl, inr, is_some, arith, number_eq, Option-cases, Bool-cases,
}
use sandbox_tester.Engine.Redaction.{
  TokenPattern, token, token_length, substitute, searching, after_drop, redacted, is_boundary,
  whole_match,
}
use sandbox_tester.Engine.Redaction.Tokens.{
  has_token, no_bracket, Clear, Covered, cons-AsBefore, substitute-AsBefore, token-some,
  substitute_unmatched, substitute_matched, Covered-refl, Covered-of_none,
}

-- No token of the pattern begins with the character, whatever stands around it.
abbrev pub NotFirst : TokenPattern → Char → Type 0
NotFirst p c = (b : Option Char) (s : String) → is_some (token p b (String.◌∷◌ c s)) ≡ false

abbrev NotFirstOf : TokenPattern → String → Type 0
NotFirstOf p String.[] = Unit
NotFirstOf p (String.◌∷◌ c s) = NotFirst p c

-- No token of the pattern meets a replacement.
abbrev pub IsApart : TokenPattern → Type 0
IsApart p =
    (no_bracket p.head ≡ true)
    × (p.tail "[" ≡ false)
    × ((b : Option Char) (s : String) → has_token p b (redacted <> s) ≡ has_token p (some "]") s)

-- What ends a match of the second pattern begins none of the first.
abbrev pub EndsBefore : TokenPattern → TokenPattern → Type 0
EndsBefore p q = (c : Char) → q.tail c ≡ false → NotFirst p c

is_some-whole_match : (o : Option ℕ) → is_some (whole_match o) ≡ is_some o
is_some-whole_match none = refl
is_some-whole_match (some n) = refl

pub is_some-token :
    (p : TokenPattern) (b : Option Char) (s : String)
    → is_some (token p b s) ≡ (is_boundary b && is_some (token_length p.head p.tail s))
unfolding token
is_some-token p b s = elim (Bool-cases (is_boundary b)) [
  | inl e ↦ rw e (is_some-whole_match (token_length p.head p.tail s))
  | inr e ↦ rw e refl
]

module _ (p q : TokenPattern) (apart : IsApart p) (ends : EndsBefore p q) where
  same_place :
      (b : Option Char) (c : Char) (s : String)
      → is_some (token p b (String.◌∷◌ c s)) ≡ false
      → is_some (token p b (String.◌∷◌ c (substitute (token q) (some c) searching s))) ≡ false
  same_place b c s h =
      let kept =
        cons-AsBefore p.tail c _ s (substitute-AsBefore p.tail q (some c) s apart.1) p.head
          apart.0 in
      let before = rw is_some-token at h in rw is_some-token (ground (arith, kept))

  first_kept :
      (b b' : Option Char) (c : Char) (s : String)
      → is_some (token p b (String.◌∷◌ c s)) ≡ false
      → (b' ≡ b) ⊎ NotFirst p c
      → is_some (token p b' (String.◌∷◌ c (substitute (token q) (some c) searching s))) ≡ false
  first_kept b b' c s h (inl e) = rw e (same_place b c s h)
  first_kept b b' c s h (inr ends_here) = ends_here b' _

  abbrev Searched : String → Type 0
  Searched s =
      (b b' : Option Char)
      → Covered p q b s
      → (b' ≡ b) ⊎ NotFirstOf p s
      → has_token p b' (substitute (token q) b searching s) ≡ false

  abbrev Dropped : String → Type 0
  Dropped s =
      (n : ℕ) (b : Option Char)
      → Clear q.tail n s
      → Covered p q b s
      → has_token p (some "]") (substitute (token q) b (after_drop n) s) ≡ false

  search_step : (c : Char) (s : String) → Searched s → Dropped s → Searched (String.◌∷◌ c s)
  unfolding has_token
  search_step c s searched dropped b b' covered agree =
      elim (Option-cases (token q b (String.◌∷◌ c s))) [
        | inl e ↦ rw (substitute_unmatched (token q) b c s e) (
            rw
              (
                first_kept b b' c s (covered.0 e) agree,
                searched (some c) (some c) covered.1 (inl refl),
              )
              refl)
        | inr (span, e) ↦
            let (n, same, clear) = token-some q b c s span e in
            rw (substitute_matched (token q) b c s n (e ∙ ap some same))
              (apart.2 b' _ ∙ dropped n (some c) clear covered.1)
      ]

  drop_step :
      (c : Char) (s : String) → Searched (String.◌∷◌ c s) → Dropped s → Dropped (String.◌∷◌ c s)
  unfolding substitute
  drop_step c s searched dropped zero b clear covered =
      searched b (some "]") covered (inr (ends c clear))
  drop_step c s searched dropped (suc n) b clear covered = dropped n (some c) clear covered.1

  all_places : (s : String) → Searched s × Dropped s
  unfolding substitute has_token
  all_places String.[] = (λ b b' covered agree. refl, λ n b clear covered. refl)
  all_places (String.◌∷◌ c s) =
      let (searched, dropped) = all_places s in
      let now = search_step c s searched dropped in (now, drop_step c s now dropped)

-- A pass leaves no token of its own pattern.
pub own_pass :
    (p : TokenPattern)
    → IsApart p
    → EndsBefore p p
    → (s : String) → has_token p none (substitute (token p) none searching s) ≡ false
own_pass p apart ends s =
    (all_places p p apart ends s).0 none none (Covered-refl p none s) (inl refl)

-- Another pass brings no token of the pattern about.
pub later_pass :
    (p q : TokenPattern)
    → IsApart p
    → EndsBefore p q
    → (s : String) → has_token p none s ≡ false
    → has_token p none (substitute (token q) none searching s) ≡ false
later_pass p q apart ends s h =
    (all_places p q apart ends s).0 none none (Covered-of_none p q none s h) (inl refl)
