-- ===== src/Docker/Profiles/ResourceLimits.antt =====
-- The `resource-limits` profile of src/docker_sandbox/profiles.py.
use sandbox_tester.Common.{none, some, [], ◌∷◌}
use sandbox_tester.Docker.Models.{DockerProfile}
use sandbox_tester.Docker.Profiles.Defaults.{docker_profile, rule, policy}
use sandbox_tester.Docker.Profiles.Names.{resource_limits_profile_name, resource_limits_image_name}

unfoldable pub resource_limits : DockerProfile
resource_limits =
    record (docker_profile resource_limits_profile_name
      "Start from the syscall-control hardening profile so explicit CPU, memory, and process resource limits can be added and measured independently."
      resource_limits_image_name) {
        ipc_mode = some "private";
        shm_size = some "1g";
        container_run_options =
            "--read-only" ∷ "--tmpfs" ∷ "/tmp:rw,nosuid,nodev,noexec,size=2g" ∷ "--tmpfs"
            ∷ "/sandbox-work:rw,nosuid,nodev,noexec,size=256m" ∷ "--env" ∷ "HOME=/tmp/sandbox-home"
            ∷ "--env" ∷ "XDG_CACHE_HOME=/tmp/sandbox-cache" ∷ "--env"
            ∷ "XDG_CONFIG_HOME=/tmp/sandbox-config" ∷ "--env"
            ∷ "XDG_RUNTIME_DIR=/tmp/sandbox-runtime" ∷ [];
        remote_run_root = "/sandbox-work";
        allowed_directory_template = "{remote_run_directory}/allowed";
        denied_directory_template = "/sandbox-denied";
        readonly_denied_mount_target = some "/sandbox-denied";
        landlock_rules =
            rule "/bin" "rx"
            ∷ rule "/etc" "r"
            ∷ rule "/lib" "rx"
            ∷ rule "/lib64" "rx"
            ∷ rule "/ms-playwright" "rx"
            ∷ rule "/opt/sandbox-tester" "rx"
            ∷ rule "/sbin" "rx"
            ∷ rule "/usr" "rx"
            ∷ rule "/var" "r"
            ∷ rule "/dev" "rw"
            ∷ rule "/proc" "r"
            ∷ rule "/sys" "r"
            ∷ rule "/sandbox-source" "r"
            ∷ rule "/sandbox-output" "rw"
            ∷ rule "/sandbox-work" "rw"
            ∷ rule "/tmp" "rw"
            ∷ [];
        network_gateway = some (record {
          image_name = "ubuntu/squid:latest";
          proxy_host = "egress-gateway";
          proxy_port = 3128;
          allowed_domains = ".openai.com" ∷ ".example.com" ∷ ".github.com" ∷ ".gov.uk" ∷ [];
          allowed_ip_addresses = [];
          no_proxy_hosts = [];
        });
        environment =
            policy "SSH_AUTH_SOCK" none
            ∷ policy "GPG_AGENT_INFO" none
            ∷ policy "DBUS_SESSION_BUS_ADDRESS" none
            ∷ policy "DISPLAY" none
            ∷ policy "WAYLAND_DISPLAY" none
            ∷ policy "GNUPGHOME" (some "/tmp/sandbox-gnupg-empty")
            ∷ [];
        browser_surface = none;
        network_dns_policy = none;
      }
