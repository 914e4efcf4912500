-- ===== src/Docker/Run/Host.antt =====
-- What a container run does to the host: files, directories and docker commands, in their order. An
-- action continues the list of what was done so far, and returns or raises.
use sandbox_tester.Common.{
  ℕ, String, Bool, true, false, ◌&&◌, Option, none, some, List, [], ◌∷◌, ◌++◌, ◌==◌, string_eq,
  Result, ok, err, Error,
}
use sandbox_tester.Common.PosixPath.{FilePath, Root, relative, absolute, double_slash}
use sandbox_tester.Docker.Environment.{Environment}
use sandbox_tester.Engine.Json.{Json}
use sandbox_tester.Groups.Machine.{Completed}

-- `_build_gateway_command_result`: a command of the gateway and what came of it.
pub record GatewayCommandResult : Type 0 where
  pub command : List String
  pub completed : Completed

-- What is written to a file: a text, or a value as `json.dumps` with an indent of 2 prints it, and a
-- line break. The values of the gateway hold exit statuses.
pub data Document : Type 0 where
  plain : String → Document
  json : Json → Document
  gateway_start_results : List GatewayCommandResult → List String → Option String → Document
  gateway_log : Completed → Document

pub data Effect : Type 0 where
  make_directory : FilePath → Effect
  write_text : FilePath → Document → Effect
  change_mode : FilePath → ℕ → Effect
  run_command : List String → Effect
  remove_tree : FilePath → Effect

-- The host: its environment, the functions of the standard library that the run calls, and how it
-- answers after what was done so far. `raises` is the exception of a file operation or of
-- `subprocess.run`, if there is one.
pub record Host : Type 0 where
  pub timestamp : String
  pub environment : Environment
  pub hostname : String → Option String
  pub ip_network : String → Result String
  pub dumps_text : String → String
  pub raises : List Effect → Effect → Option Error
  pub completed : List Effect → List String → Completed
  pub resolve : List Effect → FilePath → FilePath

abbrev pub Action : Type 0 → Type 0
Action A = List Effect → List Effect × Result A

abbrev pub pure : {A : Type 0} → A → Action A
pure a done = (done, ok a)

abbrev pub lift : {A : Type 0} → Result A → Action A
lift r done = (done, r)

abbrev pub continue :
    {A B : Type 0} → List Effect × Result A → (A → Action B) → List Effect × Result B
continue (done, ok a) next = next a done
continue (done, err e) next = (done, err e)

infixl 5 ◌>>=◌
abbrev pub ◌>>=◌ : {A B : Type 0} → Action A → (A → Action B) → Action B
action >>= next = λ done. continue (action done) next

infixl 5 ◌>>◌
abbrev pub ◌>>◌ : {B : Type 0} → Action (Unit {0}) → Action B → Action B
first >> rest = first >>= λ _. rest

abbrev pub outcome : Option Error → Result (Unit {0})
outcome none = ok tt
outcome (some e) = err e

-- `for x in xs: body(x)`
unfoldable pub for_each : {A : Type 0} → (A → Action (Unit {0})) → List A → Action (Unit {0})
for_each body [] = pure tt
for_each body (x ∷ xs) = do body x; for_each body xs

module _ (host : Host) where
  -- What is tried counts as done, also where it raises.
  unfoldable pub perform : Effect → Action (Unit {0})
  perform e done = (done ++ e ∷ [], outcome (host.raises done e))

  -- `subprocess.run(command, check=False, capture_output=True, text=True)`
  unfoldable pub run_docker : List String → Action Completed
  unfolding perform
  run_docker command = do
    perform (run_command command)
    λ done. (done, ok (host.completed done command))

  abbrev pub resolved : FilePath → Action FilePath
  resolved path done = (done, ok (host.resolve done path))

-- `shutil.rmtree(path, ignore_errors=True)`
abbrev pub remove_directory : FilePath → Action (Unit {0})
remove_directory path done = (done ++ remove_tree path ∷ [], ok tt)

abbrev is_same_root : Root → Root → Bool
is_same_root relative relative = true
is_same_root absolute absolute = true
is_same_root double_slash double_slash = true
is_same_root _ _ = false

abbrev is_proper_prefix : List String → List String → Bool
is_proper_prefix [] [] = false
is_proper_prefix [] (w ∷ ws) = true
is_proper_prefix (v ∷ vs) [] = false
is_proper_prefix (v ∷ vs) (w ∷ ws) = v == w && is_proper_prefix vs ws

-- `directory in path.parents`
unfoldable pub is_parent : FilePath → FilePath → Bool
unfolding string_eq
is_parent directory path =
    is_same_root directory.root path.root && is_proper_prefix directory.parts path.parts
