-- ===== src/Docker/Environment/Sorted.antt =====
-- `sorted(environment.items())`, and the `--env` options of src/docker_sandbox/sandbox_container.py.
use Prim.Native.Nat.{Ordering}
use sandbox_tester.Common.{
  String, ◌<>◌, Bool, true, false, List, [], ◌∷◌, string_eq, contains, if◌then◌else◌,
}
use sandbox_tester.Docker.Environment.{Environment}
use Prim.Native.String

-- `a <= b`, by code points.
abbrev pub text_le : String → String → Bool
text_le a b = elim (String.compare a b) [ Ordering.gt ↦ false | _ ↦ true ]

-- The keys of a dict are distinct, so its items are ordered by their keys alone.
unfoldable pub insert_sorted : String → String → Environment → Environment
insert_sorted k v [] = (k, v) ∷ []
insert_sorted k v ((j, w) ∷ rest) =
    if text_le k j then (k, v) ∷ (j, w) ∷ rest else (j, w) ∷ insert_sorted k v rest

unfoldable pub sorted_items : Environment → Environment
unfolding insert_sorted
sorted_items [] = []
sorted_items ((k, v) ∷ rest) = insert_sorted k v (sorted_items rest)

-- One turn of the loop: a local variable is named only, and Docker reads its value on the host.
abbrev pub add_environment_option : List String → String → String → List String → List String
add_environment_option local name value options =
    if contains local name
    then "--env" ∷ name ∷ options
    else "--env" ∷ (name <> ("=" <> value)) ∷ options

unfoldable pub environment_options : Environment → List String → List String
environment_options [] local = []
environment_options ((name, value) ∷ rest) local =
    add_environment_option local name value (environment_options rest local)

unfoldable pub build_environment_options : Environment → List String → List String
unfolding sorted_items environment_options
build_environment_options env local = environment_options (sorted_items env) local
