-- ===== src/Common/Format/Laws.antt =====
-- Whether a template can be filled.
use sandbox_tester.Common.{
  String, ◌<>◌, ◌≡◌, refl, string_eq, number_eq, Result, ok, err, is_ok, arith,
}
use sandbox_tester.Common.Format.{
  Mode, text, opened, closed, field, prepend, append_results, field_value, scan, format,
}

is_ok-prepend : (s : String) (r : Result String) → is_ok (prepend s r) ≡ is_ok r
is_ok-prepend s (ok t) = refl
is_ok-prepend s (err e) = refl

is_ok-append :
    (name v w found : String) (r r' : Result String)
    → is_ok r ≡ is_ok r'
    → is_ok (append_results name v (field_value name v found) r)
      ≡ is_ok (append_results name w (field_value name w found) r')
is_ok-append name v w found (ok s) (ok t) h = ground arith
is_ok-append name v w found (err s) (err t) h = ground arith
is_ok-append name v w found (ok s) (err t) h = cc
is_ok-append name v w found (err s) (ok t) h = cc

is_ok-scan :
    (name v w : String) (mode : Mode) (s : String)
    → is_ok (scan name v mode s) ≡ is_ok (scan name w mode s)
unfolding scan
is_ok-scan name v w text String.[] = refl
is_ok-scan name v w text (String.◌∷◌ c s) = ground (
  arith,
  is_ok-scan name v w text s,
  is_ok-scan name v w opened s,
  is_ok-scan name v w closed s,
  is_ok-prepend (String.◌∷◌ c "") (scan name v text s),
  is_ok-prepend (String.◌∷◌ c "") (scan name w text s),
)
is_ok-scan name v w opened String.[] = refl
is_ok-scan name v w opened (String.◌∷◌ c s) = ground (
  arith,
  is_ok-scan name v w text s,
  is_ok-scan name v w (field (String.◌∷◌ c "")) s,
  is_ok-prepend "{" (scan name v text s),
  is_ok-prepend "{" (scan name w text s),
)
is_ok-scan name v w closed String.[] = refl
is_ok-scan name v w closed (String.◌∷◌ c s) = ground (
  arith,
  is_ok-scan name v w text s,
  is_ok-prepend "}" (scan name v text s),
  is_ok-prepend "}" (scan name w text s),
)
is_ok-scan name v w (field found) String.[] = refl
is_ok-scan name v w (field found) (String.◌∷◌ c s) = ground (
  arith,
  is_ok-scan name v w (field (found <> String.◌∷◌ c "")) s,
  is_ok-append name v w found (scan name v text s) (scan name w text s)
      (is_ok-scan name v w text s),
)

pub is_ok-format :
    (name v w template : String) → is_ok (format name v template) ≡ is_ok (format name w template)
unfolding format
is_ok-format name v w template = is_ok-scan name v w text template
