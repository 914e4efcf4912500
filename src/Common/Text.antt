-- ===== src/Common/Text.antt =====
-- The methods of Python's `str` that the program calls: `strip`, `lower`, `replace`, `split`, `join`.
-- Letters and white space are those of ASCII.
use sandbox_tester.Common.{
  zero, suc, ◌/◌, ◌%◌, Char, code, String, ◌<>◌, Bool, false, ◌&&◌, ◌||◌, List, [], ◌∷◌, ◌==◌,
  number_eq, leb, if◌then◌else◌, ℕ,
}

abbrev pub is_slash : Char → Bool
is_slash c = code c == b'/'

-- The characters that `str.strip` removes.
abbrev pub is_space : Char → Bool
is_space c =
    code c == 32 || (leb 9 (code c) && leb (code c) 13) || (leb 28 (code c) && leb (code c) 31)

-- `s.lstrip(chars)`, with the set of characters as a test.
unfoldable pub lstrip : (Char → Bool) → String → String
lstrip test String.[] = ""
lstrip test (String.◌∷◌ c s) = let rest = lstrip test s in if test c then rest else String.◌∷◌ c s

-- `s.rstrip(chars)`
abbrev pub rstrip_cons : (Char → Bool) → Char → String → String
rstrip_cons test c String.[] = if test c then "" else String.◌∷◌ c ""
rstrip_cons test c s = String.◌∷◌ c s

unfoldable pub rstrip : (Char → Bool) → String → String
rstrip test String.[] = ""
rstrip test (String.◌∷◌ c s) = rstrip_cons test c (rstrip test s)

-- `s.strip(chars)`
unfoldable pub strip : (Char → Bool) → String → String
unfolding lstrip rstrip
strip test s = rstrip test (lstrip test s)

-- `c in s`, for a character given by a test.
unfoldable pub any_char : (Char → Bool) → String → Bool
any_char test String.[] = false
any_char test (String.◌∷◌ c s) = test c || any_char test s

-- `s.replace(c, by)`, for a single character.
unfoldable pub replace : (Char → Bool) → String → String → String
replace test by String.[] = ""
replace test by (String.◌∷◌ c s) =
    let rest = replace test by s in if test c then by <> rest else String.◌∷◌ c rest

abbrev pub cons_head : Char → List String → List String
cons_head c [] = String.◌∷◌ c "" ∷ []
cons_head c (w ∷ ws) = String.◌∷◌ c w ∷ ws

-- `s.split(c)`
unfoldable pub split : (Char → Bool) → String → List String
split test String.[] = "" ∷ []
split test (String.◌∷◌ c s) =
    let rest = split test s in if test c then "" ∷ rest else cons_head c rest

-- `sep.join(words)`
unfoldable pub join : String → List String → String
join sep [] = ""
join sep (w ∷ []) = w
join sep (w ∷ v ∷ ws) = w <> (sep <> join sep (v ∷ ws))

-- One decimal digit.
abbrev pub digit : ℕ → String
digit zero = "0"
digit (suc zero) = "1"
digit (suc (suc zero)) = "2"
digit (suc (suc (suc zero))) = "3"
digit (suc (suc (suc (suc zero)))) = "4"
digit (suc (suc (suc (suc (suc zero))))) = "5"
digit (suc (suc (suc (suc (suc (suc zero)))))) = "6"
digit (suc (suc (suc (suc (suc (suc (suc zero))))))) = "7"
digit (suc (suc (suc (suc (suc (suc (suc (suc zero)))))))) = "8"
digit _ = "9"

-- The digits of a number; fuel above the number suffices, as each step divides by ten.
decimal_onto : ℕ → ℕ → String → String
decimal_onto zero n rest = rest
decimal_onto (suc fuel) n rest =
    let more = decimal_onto fuel (n / 10) (digit (n % 10) <> rest) in if n == 0 then rest else more

-- `str(n)`
unfoldable pub decimal : ℕ → String
unfolding decimal_onto number_eq
decimal n = if n == 0 then "0" else decimal_onto n n ""

-- Each character of the first text becomes the one at its place in the second.
abbrev pub translate_char : String → String → Char → Char
translate_char String.[] t c = c
translate_char (String.◌∷◌ a s) String.[] c = c
translate_char (String.◌∷◌ a s) (String.◌∷◌ b t) c =
    if code c == code a then b else translate_char s t c

unfoldable pub lower_char : Char → Char
unfolding number_eq
lower_char = translate_char "ABCDEFGHIJKLMNOPQRSTUVWXYZ" "abcdefghijklmnopqrstuvwxyz"

-- `s.lower()`
unfoldable pub lower : String → String
unfolding lower_char
lower String.[] = ""
lower (String.◌∷◌ c s) = String.◌∷◌ (lower_char c) (lower s)
