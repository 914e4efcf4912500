-- ===== src/Common/PosixPath/Laws.antt =====
-- Printing a well-formed path and reading it again gives the path back.
use sandbox_tester.Common.{
  String, ◌<>◌, ◌≡◌, refl, ◌∙◌, ap, true, false, List, [], ◌∷◌, arith, string_eq, number_eq,
  keep_if, All,
}
use sandbox_tester.Common.Text.{is_slash, split, join, any_char}
use sandbox_tester.Common.PosixPath.{
  root_after_one, root_after_two, is_rooted, relative, absolute, double_slash, FilePath, root_of,
  is_part,
}
use text.Mathlib.TextLemmas.{nil-append, cons-append, append-nil}
use sandbox_tester.Common.{Char}
use sandbox_tester.Common.PosixPath.{parse, to_text}
use sandbox_tester.Common.PosixPath.{Root}
use sandbox_tester.Common.PosixPath.{text_of}

-- A part as `pathlib` keeps it: not empty, not `.`, and without a slash.
abbrev pub IsPart : String → Type 0
IsPart w = (is_part w ≡ true) × (any_char is_slash w ≡ false)

abbrev pub IsWellFormed : FilePath → Type 0
IsWellFormed p = All IsPart p.parts

split_whole : (w : String) → any_char is_slash w ≡ false → split is_slash w ≡ w ∷ []
unfolding split any_char
split_whole String.[] h = refl
split_whole (String.◌∷◌ c w) h = ground (arith, split_whole w)

split-slash : (s : String) → split is_slash ("/" <> s) ≡ "" ∷ split is_slash s
unfolding split number_eq
split-slash s = rw (cons-append, nil-append)

split_first :
    (w s : String)
    → any_char is_slash w ≡ false
    → split is_slash (w <> ("/" <> s)) ≡ w ∷ split is_slash s
unfolding split any_char
split_first String.[] s h = rw nil-append (split-slash s)
split_first (String.◌∷◌ c w) s h = rw cons-append (ground (arith, split_first w s))

-- Splitting at slashes undoes joining with slashes.
split-join :
    (w : String) (ws : List String)
    → All IsPart (w ∷ ws)
    → split is_slash (join "/" (w ∷ ws)) ≡ w ∷ ws
unfolding join
split-join w [] h = split_whole w h.0.1
split-join w (v ∷ ws) h =
    split_first w (join "/" (v ∷ ws)) h.0.1 ∙ ap (λ t. w ∷ t) (split-join v ws h.1)

keep_if-parts : (ws : List String) → All IsPart ws → keep_if is_part ws ≡ ws
unfolding keep_if
keep_if-parts [] h = refl
keep_if-parts (w ∷ ws) h = rw (h.0.0, keep_if-parts ws h.1)

root_of-append : (w s : String) → IsPart w → root_of (w <> s) ≡ relative
unfolding root_of any_char string_eq
root_of-append String.[] s h = cc h.0
root_of-append (String.◌∷◌ c w) s h = rw cons-append (ground arith)

root_of-join :
    (w : String) (ws : List String) → All IsPart (w ∷ ws) → root_of (join "/" (w ∷ ws)) ≡ relative
unfolding join
root_of-join w [] h = rw append-nil at (root_of-append w "" h.0)
root_of-join w (v ∷ ws) h = root_of-append w _ h.0

is_rooted-root_after_one : (s : String) → is_rooted (root_after_one s) ≡ true
is_rooted-root_after_one String.[] = refl
is_rooted-root_after_one (String.◌∷◌ c String.[]) = ground arith
is_rooted-root_after_one (String.◌∷◌ c (String.◌∷◌ d s)) = ground arith

not_slash_of_relative :
    (c : Char) (s : String) → root_of (String.◌∷◌ c s) ≡ relative → is_slash c ≡ false
unfolding root_of
not_slash_of_relative c s h = ground (arith, is_rooted-root_after_one s)

root_after_one_of_relative : (s : String) → root_of s ≡ relative → root_after_one s ≡ absolute
root_after_one_of_relative String.[] h = refl
root_after_one_of_relative (String.◌∷◌ c s) h = rw (not_slash_of_relative c s h)

root_after_two_of_relative : (s : String) → root_of s ≡ relative → root_after_two s ≡ double_slash
root_after_two_of_relative String.[] h = refl
root_after_two_of_relative (String.◌∷◌ c s) h = rw (not_slash_of_relative c s h)

root_of-slash : (s : String) → root_of s ≡ relative → root_of ("/" <> s) ≡ absolute
unfolding root_of number_eq
root_of-slash s h = rw (cons-append, nil-append) (root_after_one_of_relative s h)

root_of-two_slashes : (s : String) → root_of s ≡ relative → root_of ("//" <> s) ≡ double_slash
unfolding root_of number_eq
root_of-two_slashes s h = rw (cons-append, cons-append, nil-append) (root_after_two_of_relative s h)

split-two_slashes : (s : String) → split is_slash ("//" <> s) ≡ "" ∷ "" ∷ split is_slash s
unfolding split number_eq
split-two_slashes s = rw (cons-append, cons-append, nil-append)

parse_eq :
    (s : String) (r : Root) (ws : List String)
    → root_of s ≡ r
    → keep_if is_part (split is_slash s) ≡ ws
    → parse s ≡ record { root = r; parts = ws }
unfolding parse
parse_eq s r ws hr hw = λ i. record { root = hr i; parts = hw i }

keep_if-empty : (ws : List String) → keep_if is_part ("" ∷ ws) ≡ keep_if is_part ws
unfolding keep_if string_eq
keep_if-empty ws = refl

parse-text_of :
    (r : Root) (ws : List String)
    → All IsPart ws
    → parse (text_of r ws) ≡ record { root = r; parts = ws }
unfolding join parse
parse-text_of relative [] h = refl
parse-text_of absolute [] h = refl
parse-text_of double_slash [] h = refl
parse-text_of relative (w ∷ ws) h =
    let s = join "/" (w ∷ ws) in
    rw nil-append (
      parse_eq s _ _ (root_of-join w ws h)
        (ap (keep_if is_part) (split-join w ws h) ∙ keep_if-parts _ h))
parse-text_of absolute (w ∷ ws) h =
    let s = join "/" (w ∷ ws) in
    parse_eq ("/" <> s) _ _ (root_of-slash s (root_of-join w ws h)) (
      ap (keep_if is_part) (split-slash s ∙ ap (λ t. "" ∷ t) (split-join w ws h))
      ∙ keep_if-empty (w ∷ ws)
      ∙ keep_if-parts _ h)
parse-text_of double_slash (w ∷ ws) h =
    let s = join "/" (w ∷ ws) in
    parse_eq ("//" <> s) _ _ (root_of-two_slashes s (root_of-join w ws h)) (
      ap (keep_if is_part) (split-two_slashes s ∙ ap (λ t. "" ∷ "" ∷ t) (split-join w ws h))
      ∙ keep_if-empty ("" ∷ w ∷ ws)
      ∙ keep_if-empty (w ∷ ws)
      ∙ keep_if-parts _ h)

-- Reading the text of a well-formed path gives the path.
pub parse-to_text : (p : FilePath) → IsWellFormed p → parse (to_text p) ≡ p
unfolding to_text
parse-to_text p h = parse-text_of p.root p.parts h
