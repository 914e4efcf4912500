-- ===== src/Docker/Profiles/ReadonlyFs.antt =====
-- The `readonly-fs` profile of src/docker_sandbox/profiles.py.
use sandbox_tester.Common.{none, some, [], ◌∷◌}
use sandbox_tester.Docker.Models.{DockerProfile}
use sandbox_tester.Docker.Profiles.Defaults.{docker_profile, rule}
use sandbox_tester.Docker.Profiles.Names.{readonly_fs_profile_name, readonly_fs_image_name}

unfoldable pub readonly_fs : DockerProfile
readonly_fs =
    record (docker_profile readonly_fs_profile_name
      "Run Sandbox Tester with a read-only root filesystem, writable output mount, and tmpfs-backed runtime directories."
      readonly_fs_image_name) {
        cgroupns_mode = none;
        pids_limit = none;
        memory = none;
        memory_swap = none;
        cpus = none;
        ulimits = [];
        cap_drop = [];
        security_options = [];
        seccomp_profile = none;
        browser_surface = none;
        network_dns_policy = none;
        denied_executable_paths = [];
        container_run_options =
            "--read-only" ∷ "--tmpfs" ∷ "/tmp:rw,nosuid,nodev,noexec,size=2g" ∷ "--tmpfs"
            ∷ "/sandbox-work:rw,nosuid,nodev,noexec,size=256m" ∷ "--env" ∷ "HOME=/tmp/sandbox-home"
            ∷ "--env" ∷ "XDG_CACHE_HOME=/tmp/sandbox-cache" ∷ "--env"
            ∷ "XDG_CONFIG_HOME=/tmp/sandbox-config" ∷ "--env"
            ∷ "XDG_RUNTIME_DIR=/tmp/sandbox-runtime" ∷ [];
        remote_run_root = "/sandbox-work";
        allowed_directory_template = "{remote_run_directory}/allowed";
        denied_directory_template = "/sandbox-denied";
        readonly_denied_mount_target = some "/sandbox-denied";
        landlock_rules =
            rule "/bin" "rx"
            ∷ rule "/etc" "r"
            ∷ rule "/lib" "rx"
            ∷ rule "/lib64" "rx"
            ∷ rule "/ms-playwright" "rx"
            ∷ rule "/opt/sandbox-tester" "rx"
            ∷ rule "/sbin" "rx"
            ∷ rule "/usr" "rx"
            ∷ rule "/var" "r"
            ∷ rule "/dev" "rw"
            ∷ rule "/proc" "r"
            ∷ rule "/sys" "r"
            ∷ rule "/sandbox-source" "r"
            ∷ rule "/sandbox-output" "rw"
            ∷ rule "/sandbox-work" "rw"
            ∷ rule "/tmp" "rw"
            ∷ [];
      }
