-- ===== src/Common/PosixPath.antt =====
-- Python's `pathlib.PurePosixPath`: a path is its root and its parts.
pub mod Laws
use sandbox_tester.Common.{
  String, ◌<>◌, Bool, true, false, not, ◌&&◌, List, [], ◌∷◌, ◌++◌, ◌==◌, string_eq, number_eq,
  if◌then◌else◌, keep_if,
}
use sandbox_tester.Common.Text.{is_slash, split, join}

-- POSIX gives exactly two leading slashes a meaning of their own, so `pathlib` keeps them apart.
pub data Root : Type 0 where
  relative absolute double_slash : Root

pub record FilePath : Type 0 where
  pub root : Root
  pub parts : List String

-- The root of a text, from the number of its leading slashes.
abbrev pub root_after_two : String → Root
root_after_two String.[] = double_slash
root_after_two (String.◌∷◌ c s) = if is_slash c then absolute else double_slash

abbrev pub root_after_one : String → Root
root_after_one String.[] = absolute
root_after_one (String.◌∷◌ c s) = if is_slash c then root_after_two s else absolute

unfoldable pub root_of : String → Root
root_of String.[] = relative
root_of (String.◌∷◌ c s) = if is_slash c then root_after_one s else relative

-- Empty parts and `.` are dropped.
abbrev pub is_part : String → Bool
is_part w = not (w == "") && not (w == ".")

-- `PurePosixPath(text)`
unfoldable pub parse : String → FilePath
unfolding root_of keep_if split string_eq number_eq
parse s = record { root = root_of s; parts = keep_if is_part (split is_slash s) }

abbrev pub root_text : Root → String
root_text relative = ""
root_text absolute = "/"
root_text double_slash = "//"

-- `str(path)`
abbrev pub text_of : Root → List String → String
text_of relative [] = "."
text_of r ps = root_text r <> join "/" ps

unfoldable pub to_text : FilePath → String
unfolding join
to_text p = text_of p.root p.parts

abbrev pub is_rooted : Root → Bool
is_rooted relative = false
is_rooted absolute = true
is_rooted double_slash = true

-- `path.is_absolute()`
unfoldable pub is_absolute : FilePath → Bool
is_absolute p = is_rooted p.root

abbrev pub last_or : String → List String → String
last_or d [] = d
last_or d (w ∷ ws) = last_or w ws

-- `path.name`
unfoldable pub name : FilePath → String
name p = last_or "" p.parts

abbrev pub all_but_last : List String → List String
all_but_last [] = []
all_but_last (w ∷ []) = []
all_but_last (w ∷ v ∷ ws) = w ∷ all_but_last (v ∷ ws)

-- `path.parent`
unfoldable pub parent : FilePath → FilePath
parent p = record p { parts = all_but_last p.parts }

-- `path / other`: an absolute `other` replaces the path.
unfoldable pub child : FilePath → String → FilePath
unfolding is_absolute parse
child p s = let q = parse s in if is_absolute q then q else record p { parts = p.parts ++ q.parts }
