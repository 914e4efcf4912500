-- ===== src/Docker/Profiles/NoShellAccess.antt =====
-- The `no-shell-access` profile of src/docker_sandbox/profiles.py.
use sandbox_tester.Common.{some, [], ◌∷◌, ◌++◌}
use sandbox_tester.Docker.Models.{DockerProfile}
use sandbox_tester.Docker.Profiles.Defaults.{policy}
use sandbox_tester.Docker.Profiles.Names.{no_shell_access_profile_name, no_shell_access_image_name}
use sandbox_tester.Docker.Profiles.PersistenceControl.{persistence_control}

unfoldable pub no_shell_access : DockerProfile
unfolding persistence_control
no_shell_access = record persistence_control {
  name = no_shell_access_profile_name;
  description =
      "Start from the persistence-control hardening profile so general Python process and shell spawning can be denied while preserving the narrow browser-driver launches needed by Playwright.";
  image_name = no_shell_access_image_name;
  environment =
      persistence_control.environment ++ (policy "SANDBOX_DENY_PROCESS_SPAWN" (some "1") ∷ []);
}
