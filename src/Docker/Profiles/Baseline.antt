-- ===== src/Docker/Profiles/Baseline.antt =====
-- The `baseline` profile of src/docker_sandbox/profiles.py.
use sandbox_tester.Common.{none, []}
use sandbox_tester.Docker.Models.{DockerProfile}
use sandbox_tester.Docker.Profiles.Defaults.{docker_profile}
use sandbox_tester.Docker.Profiles.Names.{baseline_profile_name, baseline_image_name}

unfoldable pub baseline : DockerProfile
baseline =
    record (docker_profile baseline_profile_name
      "Current Docker sandbox behavior with no additional image or container hardening."
      baseline_image_name) {
        cgroupns_mode = none;
        pids_limit = none;
        memory = none;
        memory_swap = none;
        cpus = none;
        ulimits = [];
        cap_drop = [];
        security_options = [];
        seccomp_profile = none;
        browser_surface = none;
        network_dns_policy = none;
        denied_executable_paths = [];
      }
