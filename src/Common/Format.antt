-- ===== src/Common/Format.antt =====
-- `str.format` with one named value, for templates whose fields are plain names.
pub mod Laws
use sandbox_tester.Common.{
  Char, code, String, ◌<>◌, ◌==◌, string_eq, number_eq, if◌then◌else◌, Result, ok, err, value_error,
  key_error, index_error,
}

pub data Brace : Type 0 where
  opening closing other : Brace

brace : Char → Brace
brace c = if code c == b'{' then opening else if code c == b'}' then closing else other

-- Where the scan stands: in text, behind `{`, in a field, behind `}`.
pub data Mode : Type 0 where
  text opened closed : Mode
  field : String → Mode

abbrev prepend : String → Result String → Result String
prepend s (ok t) = ok (s <> t)
prepend s (err e) = err e

module _ (name value : String) where
  abbrev field_value : String → Result String
  field_value found = if found == name then ok value else err (key_error found)

  abbrev append_results : Result String → Result String → Result String
  append_results (ok s) r = prepend s r
  append_results (err e) r = err e

  scan : Mode → String → Result String
  scan text String.[] = ok ""
  scan text (String.◌∷◌ c s) = elim (brace c) [
    | opening ↦ scan opened s
    | closing ↦ scan closed s
    | other ↦ prepend (String.◌∷◌ c "") (scan text s)
  ]
  scan opened String.[] = err (value_error "Single '{' encountered in format string")
  scan opened (String.◌∷◌ c s) = elim (brace c) [
    | opening ↦ prepend "{" (scan text s)
    | closing ↦ err (index_error "Replacement index 0 out of range for positional args tuple")
    | other ↦ scan (field (String.◌∷◌ c "")) s
  ]
  scan closed String.[] = err (value_error "Single '}' encountered in format string")
  scan closed (String.◌∷◌ c s) = elim (brace c) [
    | opening ↦ err (value_error "Single '}' encountered in format string")
    | closing ↦ prepend "}" (scan text s)
    | other ↦ err (value_error "Single '}' encountered in format string")
  ]
  scan (field found) String.[] = err (value_error "expected '}' before end of string")
  scan (field found) (String.◌∷◌ c s) = elim (brace c) [
    | opening ↦ err (value_error "unexpected '{' in field name")
    | closing ↦ append_results (field_value found) (scan text s)
    | other ↦ scan (field (found <> String.◌∷◌ c "")) s
  ]

  -- `template.format(name=value)`
  unfoldable pub format : String → Result String
  unfolding scan brace string_eq number_eq
  format template = scan text template
