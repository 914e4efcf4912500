-- ===== src/Docker/Environment/Secrecy.antt =====
-- The values of local variables, and the `--env` options.
use mathlib.Core.Path.{subst}
use sandbox_tester.Common.{
  String, ◌≡◌, refl, true, List, [], ◌∷◌, arith, string_eq, contains, All, Option, inl, is_some,
  Bool-cases, some, ◌==◌, ==_refl, inr, false, sym, none,
}
use sandbox_tester.Common.Dict.{put, get}
use sandbox_tester.Docker.Environment.{
  Environment, build_container_environment, get_local_environment_variable_names, put_optional,
  resolve_onto, DockerConfiguration, resolve_environment_variables,
}
use sandbox_tester.Docker.Environment.Sorted.{build_environment_options}
use sandbox_tester.Docker.Environment.Agree.{
  Agree, environment_options-eq, put-Agree, sorted_items-Agree, build_container_environment-Agree,
}
use sandbox_tester.Docker.Constants.{local_environment_value}

-- A variable of the configuration that is marked local is among the local names.
abbrev IsMarked : List String → String × String → Type 0
IsMarked local (name, value) =
    (value == local_environment_value) ≡ true → contains local name ≡ true

-- The two hosts both have a variable or both lack it.
abbrev pub SamePresence : Environment → Environment → String × String → Type 0
SamePresence g h (name, value) = is_some (get g name) ≡ is_some (get h name)

IsMarked-cons :
    (n : String) (local : List String) (env : Environment)
    → All (IsMarked local) env
    → All (IsMarked (n ∷ local)) env
IsMarked-cons n local [] m = tt
IsMarked-cons n local ((k, v) ∷ env) m = (λ h. ground (arith, m.0 h), IsMarked-cons n local env m.1)

names-cons_local :
    (k v : String) (env : Environment)
    → (v == local_environment_value) ≡ true
    → get_local_environment_variable_names ((k, v) ∷ env)
      ≡ k ∷ get_local_environment_variable_names env
unfolding get_local_environment_variable_names
names-cons_local k v env h = rw h

names-cons_other :
    (k v : String) (env : Environment)
    → (v == local_environment_value) ≡ false
    → get_local_environment_variable_names ((k, v) ∷ env) ≡ get_local_environment_variable_names env
unfolding get_local_environment_variable_names
names-cons_other k v env h = rw h

names-IsMarked : (env : Environment) → All (IsMarked (get_local_environment_variable_names env)) env
names-IsMarked [] = tt
names-IsMarked ((k, v) ∷ env) =
    let marked = λ (names : List String). All (IsMarked names) ((k, v) ∷ env) in
    elim (Bool-cases (v == local_environment_value)) [
      | inl t ↦
          subst marked (sym (names-cons_local k v env t))
            (λ h. rw ==_refl, IsMarked-cons k _ env (names-IsMarked env))
      | inr f ↦ subst marked (sym (names-cons_other k v env f)) (λ h. cc, names-IsMarked env)
    ]

module _ (local : List String) (g h : Environment) where
  put_host-Agree :
      (d e : Environment) (k : String) (v w : Option String)
      → is_some v ≡ is_some w
      → contains local k ≡ true
      → Agree local d e
      → Agree local (put_optional d k v) (put_optional e k w)
  unfolding put_optional
  put_host-Agree d e k none none s m a = a
  put_host-Agree d e k none (some w) s m a = cc
  put_host-Agree d e k (some v) none s m a = cc
  put_host-Agree d e k (some v) (some w) s m a = put-Agree local d e k v w (inr m) a

  resolve_onto-Agree :
      (rest d e : Environment)
      → All (IsMarked local) rest
      → All (SamePresence g h) rest
      → Agree local d e
      → Agree local (resolve_onto g rest d) (resolve_onto h rest e)
  unfolding resolve_onto
  resolve_onto-Agree [] d e m s a = a
  resolve_onto-Agree ((k, v) ∷ rest) d e m s a = elim (Bool-cases (v == local_environment_value)) [
    | inl t ↦ rw t (
        resolve_onto-Agree rest (put_optional d k (get g k)) (put_optional e k (get h k)) m.1 s.1
          (put_host-Agree d e k _ _ s.0 (m.0 t) a))
    | inr f ↦ rw f (
        resolve_onto-Agree rest (put d k v) (put e k v) m.1 s.1
          (put-Agree local d e k v v (inl refl) a))
  ]

-- The `--env` options of the container do not depend on the values that local variables have on
-- the host: two hosts on which the same configured variables are set give the same options.
pub environment_options-local :
    (c : DockerConfiguration) (configured g h : Environment) (address : Option String)
    → All (SamePresence g h) configured
    → let options = λ (host : Environment).
      build_environment_options
        (build_container_environment c (resolve_environment_variables configured host) address)
        (get_local_environment_variable_names configured) in
      options g ≡ options h
unfolding build_environment_options resolve_environment_variables
environment_options-local c configured g h address s =
    let local = get_local_environment_variable_names configured in
    environment_options-eq local _ _ (
      sorted_items-Agree local _ _ (
        build_container_environment-Agree local c _ _ address
          (resolve_onto-Agree local g h configured [] [] (names-IsMarked configured) s tt)))
