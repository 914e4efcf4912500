-- ===== src/Docker/Profiles/Lookup.antt =====
-- The table of profiles, and the profiles that `get_docker_profile` returns.
use sandbox_tester.Common.{
  String, ◌<>◌, ◌≡◌, refl, Bool, true, ◌&&◌, Option, none, some, [], ◌∷◌, arith, ◌==◌, string_eq,
  ok, contains, ◌⊎◌, false, err, value_error, Option-cases, inl, inr,
}
use sandbox_tester.Common.Dict.{Dict}
use sandbox_tester.Docker.Models.{DockerProfile}
use sandbox_tester.Docker.Profiles.Table.{profiles, found_profile, get_docker_profile}
use sandbox_tester.Common.Dict

abbrev pub all_entries : (String → DockerProfile → Bool) → Dict DockerProfile → Bool
all_entries test [] = true
all_entries test ((k, p) ∷ d) = test k p && all_entries test d

pub get-all_entries :
    (test : String → DockerProfile → Bool) (d : Dict DockerProfile) (name : String)
    (p : DockerProfile)
    → all_entries test d ≡ true
    → Dict.get d name ≡ some p
    → test name p ≡ true
unfolding Dict.get
get-all_entries test [] name p h e = cc
get-all_entries test ((k, q) ∷ d) name p h e = ground (arith, get-all_entries test d name p)

pub found_profile-eq-ok :
    (name : String) (o : Option DockerProfile) (p : DockerProfile)
    → found_profile name o ≡ ok p
    → o ≡ some p
found_profile-eq-ok name none p h = cc
found_profile-eq-ok name (some q) p h = cc

pub get_docker_profile-all_entries :
    (test : String → DockerProfile → Bool) (name : String) (p : DockerProfile)
    → all_entries test profiles ≡ true
    → get_docker_profile name ≡ ok p
    → test name p ≡ true
unfolding get_docker_profile
get_docker_profile-all_entries test name p h e =
    get-all_entries test profiles name p h (found_profile-eq-ok name (Dict.get profiles name) p e)

-- A profile carries the name under which it is found.
abbrev is_named : String → DockerProfile → Bool
is_named name p = p.name == name && p.image_name == "sandbox-tester/docker-sandbox:" <> name

profiles-is_named : all_entries is_named profiles ≡ true
unfolding profiles string_eq
profiles-is_named = refl

contains-keys_of_none :
    (d : Dict DockerProfile) (name : String)
    → Dict.get d name ≡ none
    → contains (Dict.keys d) name ≡ false
unfolding Dict.get
contains-keys_of_none [] name h = refl
contains-keys_of_none ((k, q) ∷ d) name h = ground (arith, contains-keys_of_none d name)

is_named_lem :
    (name : String) (p : DockerProfile)
    → is_named name p ≡ true
    → (p.name ≡ name) × (p.image_name ≡ "sandbox-tester/docker-sandbox:" <> name)
is_named_lem name p h = ground arith

-- A profile is found under its own name, and its image is named after it; any other name is
-- refused with a message that quotes the name.
pub get_docker_profile_named :
    (name : String)
    → ((p : DockerProfile) × (get_docker_profile name ≡ ok p)
        × (p.name ≡ name)
        × (p.image_name ≡ "sandbox-tester/docker-sandbox:" <> name))
      ⊎ ((contains (Dict.keys profiles) name ≡ false)
          × (get_docker_profile name
              ≡ err (value_error ("Unsupported Docker sandbox profile: " <> name))))
unfolding get_docker_profile
get_docker_profile_named name = elim (Option-cases (Dict.get profiles name)) [
  | inl e ↦ inr (contains-keys_of_none profiles name e, rw e)
  | inr (p, e) ↦
      let named =
        is_named_lem name p (get-all_entries is_named profiles name p profiles-is_named e) in
      inl (p, rw e, named.0, named.1)
]
