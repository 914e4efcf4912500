-- ===== src/Docker/Script/Words.antt =====
-- What a shell reads in the lines of the container's script.
use mathlib.Core.List.{map}
use text.Mathlib.TextLemmas.{nil-append, cons-append}
use sandbox_tester.Common.{
  Char, sym, String, ◌<>◌, ◌≡◌, refl, ◌∙◌, ap, Bool, true, false, some, List, [], ◌∷◌, ◌++◌,
  number_eq,
}
use sandbox_tester.Common.Shell.{is_safe, quote}
use sandbox_tester.Common.Shell.Words.{
  Token, word, redirect, between, lex, kind, lex-quote_end, lex-quote_space, lex-join,
}
use sandbox_tester.Docker.Constants.{
  allowed_file_content, denied_file_content, hidden_allowed_file_content,
  hidden_denied_file_content,
}
use sandbox_tester.Docker.Script.{build_write_text_command, container_script_lines}

lex-printf :
    (s : String) (ts : List Token)
    → lex between s ≡ some ts
    → lex between ("printf '%s' " <> s) ≡ some (word "printf" ∷ word "%s" ∷ ts)
unfolding lex kind is_safe number_eq
lex-printf s ts h =
    rw
      (
        cons-append, cons-append, cons-append, cons-append, cons-append, cons-append, cons-append,
        cons-append, cons-append, cons-append, cons-append, cons-append, nil-append, h,
      )
      refl

lex-mkdir :
    (s : String) (ts : List Token)
    → lex between s ≡ some ts
    → lex between ("mkdir -p " <> s) ≡ some (word "mkdir" ∷ word "-p" ∷ ts)
unfolding lex kind is_safe number_eq
lex-mkdir s ts h =
    rw
      (
        cons-append, cons-append, cons-append, cons-append, cons-append, cons-append, cons-append,
        cons-append, cons-append, nil-append, h,
      )
      refl

lex-redirect :
    (s : String) (ts : List Token)
    → lex between s ≡ some ts
    → lex between ("> " <> s) ≡ some (redirect ∷ ts)
unfolding lex kind number_eq
lex-redirect s ts h = rw (cons-append, cons-append, nil-append, h) refl

spaced : (s : String) → " > " <> s ≡ " " <> ("> " <> s)
spaced s =
    let blank = Char.char 32 tt in
    cons-append blank "> " s
    ∙ sym (cons-append blank "" ("> " <> s) ∙ ap (String.◌∷◌ blank) (nil-append ("> " <> s)))

-- A command that writes a text reads as `printf`, the format, the text as it is, and a redirection to
-- the path as it is, whatever the two hold.
pub lex-build_write_text_command :
    (path content : String)
    → lex between (build_write_text_command path content)
      ≡ some (word "printf" ∷ word "%s" ∷ word content ∷ redirect ∷ word path ∷ [])
unfolding build_write_text_command
lex-build_write_text_command path content =
    lex-printf (quote content <> (" > " <> quote path)) (word content ∷ redirect ∷ word path ∷ []) (
      rw (spaced (quote path)) (
        lex-quote_space content ("> " <> quote path) (redirect ∷ word path ∷ [])
          (lex-redirect (quote path) (word path ∷ []) (lex-quote_end path))))

-- The commands of the script, after the lines that prepare the home directories.
abbrev pub make_directory : String → List Token
make_directory directory = word "mkdir" ∷ word "-p" ∷ word directory ∷ []

abbrev pub write_text : String → String → List Token
write_text path content = word "printf" ∷ word "%s" ∷ word content ∷ redirect ∷ word path ∷ []

abbrev pub denied_commands : String → Bool → List (List Token)
denied_commands denied_directory false = []
denied_commands denied_directory true =
    make_directory (denied_directory <> "/denied")
    ∷ write_text ((denied_directory <> "/denied") <> "/denied.txt") denied_file_content
    ∷ write_text ((denied_directory <> "/denied") <> "/.hidden") hidden_denied_file_content
    ∷ []

abbrev pub script_commands : String → String → Bool → List String → List (List Token)
script_commands allowed_directory denied_directory create_denied_fixture arguments =
    make_directory (allowed_directory <> "/allowed")
    ∷ write_text ((allowed_directory <> "/allowed") <> "/allowed.txt") allowed_file_content
    ∷ write_text ((allowed_directory <> "/allowed") <> "/.hidden") hidden_allowed_file_content
    ∷ (denied_commands denied_directory create_denied_fixture ++ map word arguments ∷ [])

-- The lines after the first six.
abbrev pub after_six : List String → List String
after_six (a ∷ b ∷ c ∷ d ∷ e ∷ f ∷ lines) = lines
after_six _ = []

-- After its six fixed lines, the script is, line by line, the commands that make and fill the fixture
-- directories, the denied one only where it is asked for, and last the program with its arguments: a
-- shell reads the directories and the arguments as they are, whatever they hold.
pub lex-container_script_lines :
    (allowed_directory denied_directory : String) (create_denied_fixture : Bool)
    (arguments : List String)
    → map (lex between) (
        after_six (
          container_script_lines allowed_directory denied_directory create_denied_fixture
            arguments))
      ≡ map some
          (script_commands allowed_directory denied_directory create_denied_fixture arguments)
unfolding container_script_lines
lex-container_script_lines allowed denied false arguments =
    rw
      (
        lex-mkdir _ _ (lex-quote_end (allowed <> "/allowed")),
        lex-build_write_text_command _ allowed_file_content,
        lex-build_write_text_command _ hidden_allowed_file_content,
        lex-join arguments,
      )
      refl
lex-container_script_lines allowed denied true arguments =
    rw
      (
        lex-mkdir _ _ (lex-quote_end (allowed <> "/allowed")),
        lex-build_write_text_command ((allowed <> "/allowed") <> "/allowed.txt")
            allowed_file_content,
        lex-build_write_text_command ((allowed <> "/allowed") <> "/.hidden")
            hidden_allowed_file_content,
        lex-mkdir _ _ (lex-quote_end (denied <> "/denied")),
        lex-build_write_text_command ((denied <> "/denied") <> "/denied.txt") denied_file_content,
        lex-build_write_text_command ((denied <> "/denied") <> "/.hidden")
            hidden_denied_file_content,
        lex-join arguments,
      )
      refl
