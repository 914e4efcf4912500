-- ===== src/Docker/Profiles/Strength.antt =====
-- Two profiles of the table compared: the controls that one takes over from another.
use sandbox_tester.Common.{
  String, ◌≡◌, refl, Bool, true, false, not, ◌&&◌, some, List, [], ◌∷◌, ◌==◌, string_eq, number_eq,
  contains, if◌then◌else◌, ok, arith,
}
use sandbox_tester.Common.Dict.{Dict}
use sandbox_tester.Docker.Models.{DockerProfile}
use sandbox_tester.Docker.Profiles.Controls.{keeps_controls}
use sandbox_tester.Common.Text.{split}
use sandbox_tester.Docker.Profiles.Lookup.{all_entries, found_profile-eq-ok, get-all_entries}
use sandbox_tester.Docker.Profiles.Table.{profiles, get_docker_profile}
use sandbox_tester.Common.Dict

abbrev all_pairs : (DockerProfile → DockerProfile → Bool) → Dict DockerProfile → Bool
all_pairs test [] = true
all_pairs test ((k, p) ∷ d) = all_entries (λ j q. test p q) d && all_pairs test d

profiles-all_pairs : all_pairs keeps_controls profiles ≡ true
unfolding profiles string_eq number_eq split
profiles-all_pairs = refl

-- The first name stands before the second.
abbrev pub precedes : List String → String → String → Bool
precedes [] m n = false
precedes (k ∷ ks) m n = not (n == k) && (if m == k then contains ks n else precedes ks m n)

get-all_pairs :
    (test : DockerProfile → DockerProfile → Bool) (d : Dict DockerProfile) (m n : String)
    (p q : DockerProfile)
    → all_pairs test d ≡ true
    → Dict.get d m ≡ some p
    → Dict.get d n ≡ some q
    → precedes (Dict.keys d) m n ≡ true
    → test p q ≡ true
unfolding Dict.get
get-all_pairs test [] m n p q h hm hn before = cc
get-all_pairs test ((k, r) ∷ d) m n p q h hm hn before = ground (
  arith,
  get-all_pairs test d m n p q,
  get-all_entries (λ (j : String) (s : DockerProfile). test r s) d n q,
)

pub get_docker_profile-keeps_controls :
    (m n : String) (p q : DockerProfile)
    → get_docker_profile m ≡ ok p
    → get_docker_profile n ≡ ok q
    → precedes (Dict.keys profiles) m n ≡ true
    → keeps_controls p q ≡ true
unfolding get_docker_profile
get_docker_profile-keeps_controls m n p q hm hn before =
    get-all_pairs keeps_controls profiles m n p q profiles-all_pairs
      (found_profile-eq-ok m (Dict.get profiles m) p hm)
      (found_profile-eq-ok n (Dict.get profiles n) q hn) before
