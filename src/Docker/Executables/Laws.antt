-- ===== src/Docker/Executables/Laws.antt =====
-- Which targets are denied, when the profile is refused, and where a stub is written.
use mathlib.Core.List.{map}
use text.Mathlib.TextLemmas.{nil-append, cons-append}
use sandbox_tester.Common.{
  String, ◌<>◌, ◌≡◌, refl, ◌∙◌, Bool, true, false, not, ◌&&◌, List, [], ◌∷◌, ◌++◌, arith, string_eq,
  number_eq, contains, keep_if, fromkeys, IsDistinct, fromkeys-IsDistinct, contains-fromkeys,
  contains-keep_if, traverse, ok, is_ok, ◌>>=◌, >>=-eq-ok, Bool-cases, inl, inr,
}
use sandbox_tester.Docker.Executables.{
  is_invalid_name, is_invalid_path, name_target, path_target, keep_target, validate_executable_name,
  validate_executable_path, get_denied_executable_targets, flatten_path,
  build_denied_executable_stub_name,
}
use sandbox_tester.Common.Text.{any_char, replace, is_slash, strip}
use sandbox_tester.Docker.Models.{DockerConfiguration}

abbrev usr_bin : String → String
usr_bin name = "/usr/bin/" <> name

-- The targets that the profile asks for, before any is dropped.
abbrev pub requested_targets : DockerConfiguration → List String
requested_targets c = map usr_bin c.profile.denied_executables ++ c.profile.denied_executable_paths

traverse-name_target :
    (names ts : List String) → traverse name_target names ≡ ok ts → ts ≡ map usr_bin names
unfolding traverse name_target validate_executable_name
traverse-name_target [] ts h = ground arith
traverse-name_target (n ∷ names) ts h =
    let (t, ht, r) =
      >>=-eq-ok (name_target n) (λ y. traverse name_target names >>= λ ys. ok (y ∷ ys)) h in
    let (us, hu, e) = >>=-eq-ok (traverse name_target names) (λ ys. ok (t ∷ ys)) r in
    ground (arith, traverse-name_target names us hu)

traverse-path_target : (paths ts : List String) → traverse path_target paths ≡ ok ts → ts ≡ paths
unfolding traverse path_target validate_executable_path
traverse-path_target [] ts h = ground arith
traverse-path_target (p ∷ paths) ts h =
    let (t, ht, r) =
      >>=-eq-ok (path_target p) (λ y. traverse path_target paths >>= λ ys. ok (y ∷ ys)) h in
    let (us, hu, e) = >>=-eq-ok (traverse path_target paths) (λ ys. ok (t ∷ ys)) r in
    ground (arith, traverse-path_target paths us hu)

-- The targets found are those requested, less the dropped ones, each once.
get_denied_executable_targets_lem :
    (c : DockerConfiguration) (ts : List String)
    → get_denied_executable_targets c ≡ ok ts
    → ts
      ≡ fromkeys
          (keep_if (keep_target c.profile.remove_desktop_automation_tools) (requested_targets c))
unfolding get_denied_executable_targets
get_denied_executable_targets_lem c ts h =
    let names = c.profile.denied_executables in
    let paths = c.profile.denied_executable_paths in
    let kept = keep_if (keep_target c.profile.remove_desktop_automation_tools) in
    let (ns, hn, r) =
      >>=-eq-ok (traverse name_target names)
        (λ ns. traverse path_target paths >>= λ ps. ok (fromkeys (kept (ns ++ ps)))) h in
    let (ps, hp, e) =
      >>=-eq-ok (traverse path_target paths) (λ ps. ok (fromkeys (kept (ns ++ ps)))) r in
    ground (arith, traverse-name_target names ns hn, traverse-path_target paths ps hp)

abbrev all_but : (String → Bool) → List String → Bool
all_but test [] = true
all_but test (x ∷ xs) = not (test x) && all_but test xs

is_ok-traverse_names :
    (names : List String) → is_ok (traverse name_target names) ≡ all_but is_invalid_name names
unfolding traverse name_target validate_executable_name
is_ok-traverse_names [] = refl
is_ok-traverse_names (n ∷ names) = ground (arith, is_ok-traverse_names names)

is_ok-traverse_paths :
    (paths : List String) → is_ok (traverse path_target paths) ≡ all_but is_invalid_path paths
unfolding traverse path_target validate_executable_path
is_ok-traverse_paths [] = refl
is_ok-traverse_paths (n ∷ names) = ground (arith, is_ok-traverse_paths names)

-- Finding the targets succeeds exactly if every name and every path of the profile is valid.
pub is_ok-get_denied_executable_targets :
    (c : DockerConfiguration)
    → is_ok (get_denied_executable_targets c) ≡ (
        all_but is_invalid_name c.profile.denied_executables
        && all_but is_invalid_path c.profile.denied_executable_paths)
unfolding get_denied_executable_targets
is_ok-get_denied_executable_targets c = ground (
  arith,
  is_ok-traverse_names c.profile.denied_executables,
  is_ok-traverse_paths c.profile.denied_executable_paths,
)

any_slash-flatten : (s : String) → any_char is_slash (replace is_slash "__" s) ≡ false
unfolding any_char replace number_eq
any_slash-flatten String.[] = refl
any_slash-flatten (String.◌∷◌ c s) = elim (Bool-cases (is_slash c)) [
  | inl t ↦ rw (t, cons-append, cons-append, nil-append) (any_slash-flatten s)
  | inr f ↦ rw f (rw f (any_slash-flatten s))
]

-- Where the targets are found, a target is among them exactly if the profile asks for it and it is
-- none of the desktop tools that are removed from the image, and no target is there twice.
pub contains-get_denied_executable_targets :
    (c : DockerConfiguration) (ts : List String) (t : String)
    → get_denied_executable_targets c ≡ ok ts
    → IsDistinct ts
      × (contains ts t ≡ (
          contains (requested_targets c) t
          && keep_target c.profile.remove_desktop_automation_tools t))
contains-get_denied_executable_targets c ts t h =
    let keep = keep_target c.profile.remove_desktop_automation_tools in
    let kept = keep_if keep (requested_targets c) in
    rw (get_denied_executable_targets_lem c ts h) (
      fromkeys-IsDistinct kept,
      contains-fromkeys kept t ∙ contains-keep_if keep (requested_targets c) t,
    )

-- The name of a stub that is built has no slash: the stub is a direct child of its directory.
any_slash-build_denied_executable_stub_name :
    (target stub : String)
    → build_denied_executable_stub_name target ≡ ok stub
    → any_char is_slash stub ≡ false
unfolding build_denied_executable_stub_name flatten_path
any_slash-build_denied_executable_stub_name target stub h =
    let (u, hu, e) =
      >>=-eq-ok (validate_executable_path target) (λ _. ok (flatten_path target)) h in
    let found : flatten_path target ≡ stub = cc in
    rw (← found) (any_slash-flatten (strip is_slash target))
