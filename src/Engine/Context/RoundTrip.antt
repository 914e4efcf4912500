-- ===== src/Engine/Context/RoundTrip.antt =====
-- Writing a capability context as JSON data and reading it again.
use mathlib.Core.List.{map}
use sandbox_tester.Common.{◌≡◌, refl, ap, string_eq, String, Option, none, some, List, [], ◌∷◌, ok}
use sandbox_tester.Common.PosixPath.{FilePath}
use sandbox_tester.Common.PosixPath.Laws.{IsWellFormed, parse-to_text}
use sandbox_tester.Engine.Json.{Json, items, text}
use sandbox_tester.Engine.Context.{
  CapabilityContext, operating_system_from_json, optional_path_from_json, path_from_json,
  operating_system_text, optional_path_to_json, path_to_json, values, from_json_data, str_of,
  OperatingSystem, to_json_data, windows, linux, iterate, truth,
}
use sandbox_tester.Common.Dict.{get}

abbrev pub IsOptionalPath : Option FilePath → Type 0
IsOptionalPath none = Unit
IsOptionalPath (some path) = IsWellFormed path

-- Every path of the context is as `pathlib` keeps one.
abbrev pub HasPaths : CapabilityContext → Type 0
HasPaths c =
    IsWellFormed c.working_directory
    × IsWellFormed c.allowed_directory
    × IsWellFormed c.denied_directory
    × IsWellFormed c.runtime_user_directory
    × IsWellFormed c.runtime_temp_directory
    × IsOptionalPath c.mounted_shared_directory
    × IsOptionalPath c.browser_executable
    × IsOptionalPath c.existing_browser_profile
    × IsOptionalPath c.allowed_git_repository
    × IsOptionalPath c.denied_git_repository
    × IsOptionalPath c.output_directory

path_from_json-path_to_json :
    (path : FilePath) → IsWellFormed path → path_from_json (path_to_json path) ≡ ok path
unfolding path_from_json path_to_json
path_from_json-path_to_json path h = ap ok (parse-to_text path h)

optional_path_from_json-optional_path_to_json :
    (path : Option FilePath)
    → IsOptionalPath path
    → optional_path_from_json (optional_path_to_json path) ≡ ok path
unfolding optional_path_from_json optional_path_to_json path_to_json path_from_json
optional_path_from_json-optional_path_to_json none h = refl
optional_path_from_json-optional_path_to_json (some path) h =
    ap (λ p. ok (some p)) (parse-to_text path h)

operating_system_from_json-text :
    (os : OperatingSystem) → operating_system_from_json (text (operating_system_text os)) ≡ ok os
unfolding operating_system_from_json operating_system_text string_eq
operating_system_from_json-text windows = refl
operating_system_from_json-text linux = refl

pub values-items : (js : List Json) → values (items js) ≡ js
values-items [] = refl
values-items (j ∷ js) = ap (λ ks. j ∷ ks) (values-items js)

module _ (container_text : Json → String) where
  pub str_of-text : (ss : List String) → map (str_of container_text) (map text ss) ≡ ss
  unfolding str_of
  str_of-text [] = refl
  str_of-text (s ∷ ss) = ap (λ ts. s ∷ ts) (str_of-text ss)

  -- Reading the JSON data of a capability context gives the context back, if its paths are as `pathlib`
  -- keeps them.
  pub from_json_data-to_json_data :
      (c : CapabilityContext) → HasPaths c → from_json_data container_text (to_json_data c) ≡ ok c
  unfolding from_json_data to_json_data get string_eq iterate truth
  from_json_data-to_json_data c (h1, h2, h3, h4, h5, h6, h7, h8, h9, h10, h11) =
      rw
        (
          path_from_json-path_to_json c.working_directory h1,
          path_from_json-path_to_json c.allowed_directory h2,
          path_from_json-path_to_json c.denied_directory h3,
          path_from_json-path_to_json c.runtime_user_directory h4,
          path_from_json-path_to_json c.runtime_temp_directory h5,
          optional_path_from_json-optional_path_to_json c.mounted_shared_directory h6,
          operating_system_from_json-text,
          optional_path_from_json-optional_path_to_json c.browser_executable h7,
          optional_path_from_json-optional_path_to_json c.existing_browser_profile h8,
          values-items,
          optional_path_from_json-optional_path_to_json c.allowed_git_repository h9,
          optional_path_from_json-optional_path_to_json c.denied_git_repository h10,
          optional_path_from_json-optional_path_to_json c.output_directory h11,
          str_of-text,
        )
        refl
