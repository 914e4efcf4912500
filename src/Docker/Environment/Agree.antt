-- ===== src/Docker/Environment/Agree.antt =====
-- Environments that differ at most in the values of local variables: every step of
-- `_build_container_environment` keeps them so.
use sandbox_tester.Common.{
  String, ◌≡◌, refl, true, List, [], ◌∷◌, arith, ◌⊎◌, string_eq, contains, Option, inl, Bool,
  Bool-cases, some, none, false, inr,
}
use sandbox_tester.Common.Dict.{put, pop}
use sandbox_tester.Docker.Environment.{
  Environment, apply_desktop_automation_policy, apply_environment_policies,
  build_container_environment, pop_all, put_optional, put_proxy, DockerConfiguration,
  EnvironmentVariablePolicy, NetworkGatewayProfile, apply_policy, get_container_gpg_home,
  get_container_ssh_agent_socket, remote_source_directory,
}
use sandbox_tester.Docker.Environment.Sorted.{
  environment_options, insert_sorted, sorted_items, text_le,
}
use sandbox_tester.Docker.Constants.{desktop_automation_environment_names}

module _ (local : List String) where
  -- Two environments with the same variables in the same order, whose values differ at most at
  -- local variables.
  abbrev pub Agree : Environment → Environment → Type 0
  Agree [] [] = Unit
  Agree ((k, v) ∷ d) ((j, w) ∷ e) = (k ≡ j) × ((v ≡ w) ⊎ (contains local k ≡ true)) × Agree d e
  Agree _ _ = ⊥

  pub put-Agree :
      (d e : Environment) (k v w : String)
      → (v ≡ w) ⊎ (contains local k ≡ true)
      → Agree d e
      → Agree (put d k v) (put e k w)
  unfolding put
  put-Agree [] [] k v w h a = (refl, h, tt)
  put-Agree [] (x ∷ e) k v w h a = absurd a
  put-Agree (x ∷ d) [] k v w h a = absurd a
  put-Agree ((i, x) ∷ d) ((j, y) ∷ e) k v w h a = ground (arith, put-Agree d e k v w h a.2)

  pub pop-Agree : (d e : Environment) (k : String) → Agree d e → Agree (pop d k) (pop e k)
  unfolding pop
  pop-Agree [] [] k a = tt
  pop-Agree [] (x ∷ e) k a = absurd a
  pop-Agree (x ∷ d) [] k a = absurd a
  pop-Agree ((i, x) ∷ d) ((j, y) ∷ e) k a = ground (arith, pop-Agree d e k a.2)

  pub put_optional-Agree :
      (d e : Environment) (k : String) (value : Option String)
      → Agree d e
      → Agree (put_optional d k value) (put_optional e k value)
  unfolding put_optional
  put_optional-Agree d e k none a = a
  put_optional-Agree d e k (some v) a = put-Agree d e k v v (inl refl) a

  pub apply_policy-Agree :
      (d e : Environment) (k : String) (value : Option String)
      → Agree d e
      → Agree (apply_policy d k value) (apply_policy e k value)
  apply_policy-Agree d e k none a = pop-Agree d e k a
  apply_policy-Agree d e k (some v) a = put-Agree d e k v v (inl refl) a

  pub apply_environment_policies-Agree :
      (d e : Environment) (policies : List EnvironmentVariablePolicy)
      → Agree d e
      → Agree (apply_environment_policies d policies) (apply_environment_policies e policies)
  unfolding apply_environment_policies
  apply_environment_policies-Agree d e [] a = a
  apply_environment_policies-Agree d e (p ∷ policies) a =
      apply_environment_policies-Agree (apply_policy d p.name p.value)
        (apply_policy e p.name p.value) policies (apply_policy-Agree d e p.name p.value a)

  pub pop_all-Agree :
      (d e : Environment) (names : List String)
      → Agree d e
      → Agree (pop_all d names) (pop_all e names)
  unfolding pop_all
  pop_all-Agree d e [] a = a
  pop_all-Agree d e (n ∷ names) a = pop_all-Agree (pop d n) (pop e n) names (pop-Agree d e n a)

  pub apply_desktop_automation_policy-Agree :
      (d e : Environment) (allow : Bool)
      → Agree d e
      → Agree (apply_desktop_automation_policy d allow) (apply_desktop_automation_policy e allow)
  unfolding apply_desktop_automation_policy
  apply_desktop_automation_policy-Agree d e true a = a
  apply_desktop_automation_policy-Agree d e false a =
      pop_all-Agree d e desktop_automation_environment_names a

  pub put_same-Agree :
      (d e : Environment) (k v : String) → Agree d e → Agree (put d k v) (put e k v)
  put_same-Agree d e k v a = put-Agree d e k v v (inl refl) a

  pub put_proxy-Agree :
      (d e : Environment) (gateway : Option NetworkGatewayProfile) (address : Option String)
      → Agree d e
      → Agree (put_proxy d gateway address) (put_proxy e gateway address)
  unfolding put_proxy
  put_proxy-Agree d e none address a = a
  put_proxy-Agree d e (some gateway) address a = put_same-Agree _ _ _ _ (
      put_same-Agree _ _ _ _ (
        put_same-Agree _ _ _ _
          (put_same-Agree _ _ _ _ (put_same-Agree _ _ _ _ (put_same-Agree d e _ _ a)))))

  pub build_container_environment-Agree :
      (c : DockerConfiguration) (d e : Environment) (address : Option String)
      → Agree d e
      → Agree (build_container_environment c d address) (build_container_environment c e address)
  unfolding build_container_environment
  build_container_environment-Agree c d e address a =
      put_proxy-Agree _ _ c.profile.network_gateway address (
        apply_desktop_automation_policy-Agree _ _ c.profile.allow_desktop_automation_channel (
          apply_environment_policies-Agree _ _ c.profile.environment (
            put_optional-Agree _ _ "GNUPGHOME" (get_container_gpg_home c) (
              put_optional-Agree _ _ "SSH_AUTH_SOCK" (get_container_ssh_agent_socket c)
                (put_same-Agree d e "PYTHONPATH" remote_source_directory a)))))

  pub insert_sorted-Agree :
      (d e : Environment) (k v w : String)
      → (v ≡ w) ⊎ (contains local k ≡ true)
      → Agree d e
      → Agree (insert_sorted k v d) (insert_sorted k w e)
  unfolding insert_sorted
  insert_sorted-Agree [] [] k v w h a = (refl, h, tt)
  insert_sorted-Agree [] (x ∷ e) k v w h a = absurd a
  insert_sorted-Agree (x ∷ d) [] k v w h a = absurd a
  insert_sorted-Agree ((i, x) ∷ d) ((j, y) ∷ e) k v w h a = elim (Bool-cases (text_le k i)) [
    | inl t ↦ rw (← a.0, t) (refl, h, (refl, a.1, a.2))
    | inr f ↦ rw (← a.0, f) (refl, a.1, insert_sorted-Agree d e k v w h a.2)
  ]

  pub sorted_items-Agree : (d e : Environment) → Agree d e → Agree (sorted_items d) (sorted_items e)
  unfolding sorted_items
  sorted_items-Agree [] [] a = tt
  sorted_items-Agree [] (x ∷ e) a = absurd a
  sorted_items-Agree (x ∷ d) [] a = absurd a
  sorted_items-Agree ((i, x) ∷ d) ((j, y) ∷ e) a =
      rw (← a.0) (insert_sorted-Agree _ _ i x y a.1 (sorted_items-Agree d e a.2))

  pub environment_options-eq :
      (d e : Environment) → Agree d e → environment_options d local ≡ environment_options e local
  unfolding environment_options
  environment_options-eq [] [] a = refl
  environment_options-eq [] (x ∷ e) a = absurd a
  environment_options-eq (x ∷ d) [] a = absurd a
  environment_options-eq ((i, x) ∷ d) ((j, y) ∷ e) a =
      ground (arith, environment_options-eq d e a.2)
