-- ===== src/Common/Shell.antt =====
-- `shlex.quote`, as the program uses it to write shell commands.
pub mod Words
use sandbox_tester.Common.{
  ℕ, Char, code, String, ◌<>◌, Bool, not, ◌&&◌, ◌||◌, List, [], ◌∷◌, ◌==◌, string_eq, number_eq,
  leb, if◌then◌else◌,
}
use sandbox_tester.Common.Text.{any_char, replace}

abbrev pub in_range : ℕ → ℕ → ℕ → Bool
in_range lo hi n = leb lo n && leb n hi

-- Letters, digits and `_@%+=:,./-` stand for themselves in a shell.
unfoldable pub is_safe : Char → Bool
is_safe c =
    let n = code c in
    in_range b'a' b'z' n
    || in_range b'A' b'Z' n
    || in_range b'+' b':' n
    || n == b'_'
    || n == b'@'
    || n == b'%'
    || n == b'='

abbrev pub is_quote : Char → Bool
is_quote c = code c == 39

-- `shlex.quote(text)`
unfoldable pub quote : String → String
unfolding is_safe any_char replace string_eq number_eq
quote s =
    if s == ""
    then "''"
    else if any_char (λ c. not (is_safe c)) s
    then "'" <> (replace is_quote "'\"'\"'" s <> "'")
    else s

-- `" ".join(shlex.quote(word) for word in words)`
unfoldable pub quote_all : List String → List String
unfolding quote
quote_all [] = []
quote_all (w ∷ ws) = quote w ∷ quote_all ws
