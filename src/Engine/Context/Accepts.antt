-- ===== src/Engine/Context/Accepts.antt =====
-- Which JSON data are read as a capability context, and which raise an exception.
use sandbox_tester.Common.{
  ◌≡◌, refl, ap, string_eq, String, Bool, true, false, ◌&&◌, ◌||◌, ◌==◌, Option, none, some, Result,
  is_ok, ◌>>=◌, is_ok->>=, arith, sym, ◌∙◌, List, ◌∷◌, [],
}
use sandbox_tester.Common.Dict.{Dict, get}
use sandbox_tester.Common.PosixPath.{FilePath}
use sandbox_tester.Engine.Json.{Json, text, null, boolean, array, object}
use sandbox_tester.Engine.Context.{
  required, or_null, arguments_of, iterate, operating_system_from_json, optional_path_from_json,
  path_from_json, from_json_data, OperatingSystem,
}

abbrev pub is_text : Json → Bool
is_text (text s) = true
is_text _ = false

abbrev pub is_absent : Json → Bool
is_absent null = true
is_absent _ = false

abbrev pub names_operating_system : Json → Bool
names_operating_system (text s) = s == "Windows" || s == "Linux"
names_operating_system _ = false

-- Not `None` and not a Boolean.
abbrev pub is_iterable : Json → Bool
is_iterable null = false
is_iterable (boolean b) = false
is_iterable _ = true

-- The entry is there and passes the test.
abbrev pub has : (Json → Bool) → Option Json → Bool
has test none = false
has test (some j) = test j

-- The entry passes the test if it is there.
abbrev pub may_have : (Json → Bool) → Option Json → Bool
may_have test none = true
may_have test (some j) = test j

abbrev pub is_optional_text : Json → Bool
is_optional_text j = is_absent j || is_text j

abbrev pub all_true : List Bool → Bool
all_true [] = true
all_true (b ∷ bs) = b && all_true bs

-- The conditions, in the order in which the fields are read.
abbrev pub accepts : Dict Json → Bool
accepts entries = all_true (
    has is_text (get entries "working_directory")
    ∷ has is_text (get entries "allowed_directory")
    ∷ has is_text (get entries "denied_directory")
    ∷ has is_text (get entries "runtime_user_directory")
    ∷ has is_text (get entries "runtime_temp_directory")
    ∷ may_have is_optional_text (get entries "mounted_shared_directory")
    ∷ has names_operating_system (get entries "operating_system")
    ∷ may_have is_optional_text (get entries "browser_executable")
    ∷ may_have is_optional_text (get entries "existing_browser_profile")
    ∷ may_have is_iterable (get entries "browser_chromium_arguments")
    ∷ may_have is_optional_text (get entries "allowed_git_repository")
    ∷ may_have is_optional_text (get entries "denied_git_repository")
    ∷ may_have is_optional_text (get entries "output_directory")
    ∷ [])

module _ {A B : Type 0} (next : A → Result B) (b : Bool) (h : (a : A) → is_ok (next a) ≡ b) where
  is_ok-required :
      (read : Json → Result A) (test : Json → Bool)
      → ((j : Json) → is_ok (read j) ≡ test j)
      → (entry : Option Json) (key : String)
      → is_ok (required entry key >>= λ j. read j >>= next) ≡ (has test entry && b)
  is_ok-required read test same none key = refl
  is_ok-required read test same (some j) key =
      rw (sym (same j)) (is_ok->>= (read j) next b (λ a _. h a))

  is_ok-or_null :
      (read : Json → Result A) (test : Json → Bool)
      → ((j : Json) → is_ok (read j) ≡ test j)
      → test null ≡ true
      → (entry : Option Json) → is_ok (read (or_null entry) >>= next) ≡ (may_have test entry && b)
  is_ok-or_null read test same missing none =
      is_ok->>= (read null) next b (λ a _. h a) ∙ rw (same null, missing) refl
  is_ok-or_null read test same missing (some j) =
      rw (sym (same j)) (is_ok->>= (read j) next b (λ a _. h a))

is_ok-path_from_json : (j : Json) → is_ok (path_from_json j) ≡ is_text j
unfolding path_from_json
is_ok-path_from_json null = refl
is_ok-path_from_json (boolean b) = refl
is_ok-path_from_json (text s) = refl
is_ok-path_from_json (array js) = refl
is_ok-path_from_json (object js) = refl

is_ok-optional_path_from_json : (j : Json) → is_ok (optional_path_from_json j) ≡ is_optional_text j
unfolding optional_path_from_json path_from_json
is_ok-optional_path_from_json null = refl
is_ok-optional_path_from_json (boolean b) = refl
is_ok-optional_path_from_json (text s) = refl
is_ok-optional_path_from_json (array js) = refl
is_ok-optional_path_from_json (object js) = refl

is_ok-operating_system_from_json :
    (j : Json) → is_ok (operating_system_from_json j) ≡ names_operating_system j
unfolding operating_system_from_json
is_ok-operating_system_from_json null = refl
is_ok-operating_system_from_json (boolean b) = refl
is_ok-operating_system_from_json (text s) = ground arith
is_ok-operating_system_from_json (array js) = refl
is_ok-operating_system_from_json (object js) = refl

is_ok-arguments_of : (entry : Option Json) → is_ok (arguments_of entry) ≡ may_have is_iterable entry
unfolding iterate
is_ok-arguments_of none = refl
is_ok-arguments_of (some null) = refl
is_ok-arguments_of (some (boolean b)) = refl
is_ok-arguments_of (some (text s)) = refl
is_ok-arguments_of (some (array js)) = refl
is_ok-arguments_of (some (object js)) = refl

module _ {B : Type 0} where
  is_ok-path :
      (entry : Option Json) (key : String) (next : FilePath → Result B) (b : Bool)
      → ((p : FilePath) → is_ok (next p) ≡ b)
      → is_ok (required entry key >>= λ j. path_from_json j >>= next) ≡ (has is_text entry && b)
  is_ok-path entry key next b h =
      is_ok-required next b h path_from_json is_text is_ok-path_from_json entry key

  is_ok-operating_system :
      (entry : Option Json) (key : String) (next : OperatingSystem → Result B) (b : Bool)
      → ((os : OperatingSystem) → is_ok (next os) ≡ b)
      → is_ok (required entry key >>= λ j. operating_system_from_json j >>= next)
        ≡ (has names_operating_system entry && b)
  is_ok-operating_system entry key next b h =
      is_ok-required next b h operating_system_from_json names_operating_system
        is_ok-operating_system_from_json entry key

  is_ok-optional_path :
      (entry : Option Json) (next : Option FilePath → Result B) (b : Bool)
      → ((p : Option FilePath) → is_ok (next p) ≡ b)
      → is_ok (optional_path_from_json (or_null entry) >>= next)
        ≡ (may_have is_optional_text entry && b)
  is_ok-optional_path entry next b h =
      is_ok-or_null next b h optional_path_from_json is_optional_text is_ok-optional_path_from_json
        refl entry

  is_ok-arguments :
      (entry : Option Json) (next : List Json → Result B) (b : Bool)
      → ((js : List Json) → is_ok (next js) ≡ b)
      → is_ok (arguments_of entry >>= next) ≡ (may_have is_iterable entry && b)
  is_ok-arguments entry next b h =
      is_ok->>= (arguments_of entry) next b (λ js _. h js)
      ∙ ap (λ t. t && b) (is_ok-arguments_of entry)

-- JSON data are read as a capability context exactly if the five directories are there as texts, the
-- operating system is there as one of the two names, the optional paths are missing, `None` or texts,
-- and the browser's arguments are missing or can be iterated over; else an exception is raised.
pub is_ok-from_json_data :
    (container_text : Json → String) (entries : Dict Json)
    → is_ok (from_json_data container_text entries) ≡ accepts entries
unfolding from_json_data
is_ok-from_json_data container_text entries =
    is_ok-path (get entries "working_directory") _ _ _ (λ _.
      is_ok-path (get entries "allowed_directory") _ _ _ (λ _.
        is_ok-path (get entries "denied_directory") _ _ _ (λ _.
          is_ok-path (get entries "runtime_user_directory") _ _ _ (λ _.
            is_ok-path (get entries "runtime_temp_directory") _ _ _ (λ _.
              is_ok-optional_path (get entries "mounted_shared_directory") _ _ (λ _.
                is_ok-operating_system (get entries "operating_system") _ _ _ (λ _.
                  is_ok-optional_path (get entries "browser_executable") _ _ (λ _.
                    is_ok-optional_path (get entries "existing_browser_profile") _ _ (λ _.
                      is_ok-arguments (get entries "browser_chromium_arguments") _ _ (λ _.
                        is_ok-optional_path (get entries "allowed_git_repository") _ _ (λ _.
                          is_ok-optional_path (get entries "denied_git_repository") _ _ (λ _.
                            is_ok-optional_path (get entries "output_directory") _ true
                              (λ _. refl)))))))))))))
