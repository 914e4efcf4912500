-- ===== src/Docker/Image/Ensured.antt =====
-- Ensuring the image again.
use sandbox_tester.Common.{
  none, ℕ, String, ◌≡◌, refl, ◌∙◌, sym, ap, ◌++◌, ◌∷◌, [], ◌&&◌, string_eq, Bool, true, false, List,
  ◌==◌, number_eq, Bool-cases, inl, inr, arith,
}
use sandbox_tester.Common.PosixPath.{FilePath}
use sandbox_tester.Docker.Image.{
  build_image_command, inspect_command, image_exists, build_image, ensure_base_image, image_result,
}
use sandbox_tester.Docker.Models.{DockerConfiguration, DockerImageStatus, DockerImageResult}

-- The image is there: it was, or it has been made.
abbrev pub is_ready : DockerImageStatus → Bool
is_ready DockerImageStatus.exists = true
is_ready DockerImageStatus.created = true
is_ready _ = false

-- What follows the tag: build arguments, each with its value, and the context.
abbrev pub build_arguments : List String → Bool
build_arguments [] = true
build_arguments (word ∷ []) = false
build_arguments (word ∷ value ∷ words) = word == "--build-arg" && build_arguments words

module _ {Store : Type 0} (run : Store → List String → Store × ℕ) where
  -- `docker image inspect` changes nothing.
  abbrev pub InspectKeeps : Type 0
  InspectKeeps = (s : Store) (image : String) → (run s (inspect_command image)).0 ≡ s

  -- `docker build --file FILE --tag TAG [--build-arg ARGUMENT]... CONTEXT`: where it succeeds, the image
  -- that it has built is found under the name that `--tag` gives.
  abbrev pub TagNames : Type 0
  TagNames =
      (s : Store) (file tag context : String) (arguments : List String)
      → build_arguments arguments ≡ true
      → let built =
          run s
            ("docker" ∷ "build" ∷ "--file" ∷ file ∷ "--tag" ∷ tag ∷ (arguments ++ context ∷ [])) in
        (built.1 == 0) ≡ true
        → ((run built.0 ("docker" ∷ "image" ∷ "inspect" ∷ tag ∷ [])).1 == 0) ≡ true

module _ {Store : Type 0} (run : Store → List String → Store × ℕ) (path_exists : FilePath → Bool)
    (has_docker : Bool) where
  ensured_no_file :
      (c : DockerConfiguration) (s : Store)
      → path_exists c.dockerfile_path ≡ false
      → is_ready (ensure_base_image run path_exists has_docker c s).1.status ≡ false
  unfolding ensure_base_image
  ensured_no_file c s p = rw p refl

  ensured_no_docker :
      (c : DockerConfiguration) (s : Store)
      → path_exists c.dockerfile_path ≡ true
      → has_docker ≡ false
      → is_ready (ensure_base_image run path_exists has_docker c s).1.status ≡ false
  unfolding ensure_base_image
  ensured_no_docker c s p d = rw (p, d) refl

  ensured_found :
      (c : DockerConfiguration) (s : Store)
      → InspectKeeps run
      → path_exists c.dockerfile_path ≡ true
      → has_docker ≡ true
      → ((run s (inspect_command c.profile.image_name)).1 == 0) ≡ true
      → ensure_base_image run path_exists has_docker c s
        ≡ (s, image_result c DockerImageStatus.exists none)
  unfolding ensure_base_image image_exists
  ensured_found c s keeps p d h = rw (p, d, h, keeps) refl

  ensured_built :
      (c : DockerConfiguration) (s : Store)
      → InspectKeeps run
      → path_exists c.dockerfile_path ≡ true
      → has_docker ≡ true
      → ((run s (inspect_command c.profile.image_name)).1 == 0) ≡ false
      → ensure_base_image run path_exists has_docker c s ≡ build_image run c s
  unfolding ensure_base_image image_exists
  ensured_built c s keeps p d h = rw (p, d, h, keeps) refl

  built_ready :
      (c : DockerConfiguration) (s : Store)
      → is_ready (build_image run c s).1.status ≡ true
      → ((run s (build_image_command c)).1 == 0) ≡ true
  built_ready c s h = elim (Bool-cases ((run s (build_image_command c)).1 == 0)) [
    | inl t ↦ t
    | inr f ↦ ground (arith, h)
  ]

  not_ready : (b : Bool) → b ≡ true → b ≡ false → ⊥
  not_ready b t f = cc

  -- Where `docker image inspect` changes nothing, `docker build` names what it has built by its `--tag`,
  -- and the profile gives build arguments only: once the image has been found or created, ensuring it
  -- again finds it, builds nothing and changes nothing.
  pub ensure_base_image_again :
      (c : DockerConfiguration) (s : Store)
      → InspectKeeps run
      → TagNames run
      → build_arguments c.profile.image_build_arguments ≡ true
      → is_ready (ensure_base_image run path_exists has_docker c s).1.status ≡ true
      → ensure_base_image run path_exists has_docker c
          (ensure_base_image run path_exists has_docker c s).0
        ≡ (
          (ensure_base_image run path_exists has_docker c s).0,
          image_result c DockerImageStatus.exists none,
        )
  unfolding build_image_command
  ensure_base_image_again c s keeps names arguments ready =
      elim (Bool-cases (path_exists c.dockerfile_path)) [
        | inr f ↦ elim (not_ready _ ready (ensured_no_file c s f)) [ ]
        | inl p ↦ elim (Bool-cases has_docker) [
          | inr f ↦ elim (not_ready _ ready (ensured_no_docker c s p f)) [ ]
          | inl d ↦ elim (Bool-cases ((run s (inspect_command c.profile.image_name)).1 == 0)) [
            | inl h ↦ let e = ensured_found c s keeps p d h in rw e e
            | inr h ↦
                let e = ensured_built c s keeps p d h in
                rw e (
                  ensured_found c (run s (build_image_command c)).0 keeps p d (
                    names s _ c.profile.image_name _ c.profile.image_build_arguments arguments (
                      built_ready c s (
                        sym (ap (λ (x : Store × DockerImageResult). is_ready x.1.status) e)
                        ∙ ready))))
          ]
        ]
      ]
