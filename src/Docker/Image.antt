-- ===== src/Docker/Image.antt =====
-- The base image: src/docker_sandbox/container_factory.py. Docker runs a command on its store of images
-- and answers with an exit code; the store and the file system are parameters.
pub mod Ensured
use sandbox_tester.Common.{
  ℕ, String, Bool, true, false, Option, none, some, List, [], ◌∷◌, ◌++◌, ◌==◌, number_eq,
  if◌then◌else◌,
}
use sandbox_tester.Common.PosixPath.{FilePath}
use sandbox_tester.Docker.Constants.{docker_executable}
use sandbox_tester.Docker.Models.{
  DockerConfiguration, DockerProfile, DockerImageResult, DockerImageStatus,
}
use sandbox_tester.Common.PosixPath

unfoldable pub build_image_command : DockerConfiguration → List String
unfolding PosixPath.to_text
build_image_command c =
    docker_executable
    ∷ "build"
    ∷ "--file"
    ∷ PosixPath.to_text c.dockerfile_path
    ∷ "--tag"
    ∷ c.profile.image_name
    ∷ (c.profile.image_build_arguments ++ PosixPath.to_text c.build_context ∷ [])

abbrev pub inspect_command : String → List String
inspect_command image_name = docker_executable ∷ "image" ∷ "inspect" ∷ image_name ∷ []

abbrev pub image_result :
    DockerConfiguration → DockerImageStatus → Option (List String) → DockerImageResult
image_result c status command = record {
  status = status;
  image_name = c.profile.image_name;
  dockerfile_path = c.dockerfile_path;
  command = command;
}

module _ {Store : Type 0} (run : Store → List String → Store × ℕ) where
  unfoldable pub image_exists : Store → String → Store × Bool
  image_exists s image_name =
      let (s', returncode) = run s (inspect_command image_name) in (s', returncode == 0)

  -- The last part of `ensure_base_image`: the build.
  abbrev pub build_image : DockerConfiguration → Store → Store × DockerImageResult
  build_image c s =
      let (s', returncode) = run s (build_image_command c) in
      (
        s',
        image_result c
            (if returncode == 0 then DockerImageStatus.created else DockerImageStatus.build_failed)
            (some (build_image_command c)),
      )

  abbrev pub build_unless : DockerConfiguration → Store × Bool → Store × DockerImageResult
  build_unless c (s, true) = (s, image_result c DockerImageStatus.exists none)
  build_unless c (s, false) = build_image c s

  module _ (path_exists : FilePath → Bool) (has_docker : Bool) where
    unfoldable pub ensure_base_image : DockerConfiguration → Store → Store × DockerImageResult
    ensure_base_image c s =
        if path_exists c.dockerfile_path
        then (if has_docker
            then build_unless c (image_exists s c.profile.image_name)
            else (s, image_result c DockerImageStatus.docker_missing none))
        else (s, image_result c DockerImageStatus.dockerfile_missing none)
