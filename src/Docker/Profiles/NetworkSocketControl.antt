-- ===== src/Docker/Profiles/NetworkSocketControl.antt =====
-- The `network-socket-control` profile of src/docker_sandbox/profiles.py.
use sandbox_tester.Common.{none, some, [], ◌∷◌}
use sandbox_tester.Docker.Models.{DockerProfile}
use sandbox_tester.Docker.Profiles.Defaults.{
  docker_profile, default_browser_surface, default_dns_policy, rule, ulimit, sysctl, policy,
}
use sandbox_tester.Docker.Profiles.Names.{
  network_socket_control_profile_name, network_socket_control_image_name,
}

unfoldable pub network_socket_control : DockerProfile
network_socket_control =
    record (docker_profile network_socket_control_profile_name
      "Start from the runtime-control hardening profile so socket-level network controls can be added and measured independently."
      network_socket_control_image_name) {
        image_build_arguments =
            "--build-arg" ∷ "SANDBOX_MINIMIZE_IMAGE=true" ∷ "--build-arg"
            ∷ "SANDBOX_REMOVE_PYTHON_PACKAGING=true" ∷ [];
        ipc_mode = some "private";
        shm_size = some "1g";
        ulimits =
            ulimit "nofile" 4096 4096
            ∷ ulimit "nproc" 512 512
            ∷ ulimit "fsize" 104857600 104857600
            ∷ [];
        sysctls = sysctl "net.ipv4.ip_unprivileged_port_start" "1024" ∷ [];
        container_run_options =
            "--read-only" ∷ "--tmpfs" ∷ "/tmp:rw,nosuid,nodev,noexec,size=1g" ∷ "--tmpfs"
            ∷ "/sandbox-work:rw,nosuid,nodev,noexec,size=256m" ∷ "--tmpfs"
            ∷ "/proc/acpi:rw,nosuid,nodev,noexec,size=1k" ∷ "--tmpfs"
            ∷ "/sys/firmware:rw,nosuid,nodev,noexec,size=1k" ∷ "--env" ∷ "HOME=/tmp/sandbox-home"
            ∷ "--env" ∷ "XDG_CACHE_HOME=/tmp/sandbox-cache" ∷ "--env"
            ∷ "XDG_CONFIG_HOME=/tmp/sandbox-config" ∷ "--env"
            ∷ "XDG_RUNTIME_DIR=/tmp/sandbox-runtime" ∷ [];
        remote_run_root = "/sandbox-work";
        allowed_directory_template = "{remote_run_directory}/allowed";
        denied_directory_template = "/sandbox-denied";
        readonly_denied_mount_target = some "/sandbox-denied";
        landlock_rules =
            rule "/bin" "rx"
            ∷ rule "/etc" "r"
            ∷ rule "/lib" "rx"
            ∷ rule "/lib64" "rx"
            ∷ rule "/ms-playwright" "rx"
            ∷ rule "/opt/sandbox-tester" "rx"
            ∷ rule "/sbin" "rx"
            ∷ rule "/usr" "rx"
            ∷ rule "/var" "r"
            ∷ rule "/dev" "rw"
            ∷ rule "/proc" "r"
            ∷ rule "/sandbox-source" "r"
            ∷ rule "/sandbox-output" "rw"
            ∷ rule "/sandbox-work" "rw"
            ∷ rule "/tmp" "rw"
            ∷ [];
        network_gateway = some (record {
          image_name = "ubuntu/squid:latest";
          proxy_host = "egress-gateway";
          proxy_port = 3128;
          allowed_domains = ".openai.com" ∷ ".example.com" ∷ ".github.com" ∷ ".gov.uk" ∷ [];
          allowed_ip_addresses = [];
          no_proxy_hosts = "169.254.169.254" ∷ "metadata.google.internal" ∷ [];
        });
        environment =
            policy "SSH_AUTH_SOCK" none
            ∷ policy "GPG_AGENT_INFO" none
            ∷ policy "DBUS_SESSION_BUS_ADDRESS" none
            ∷ policy "DISPLAY" none
            ∷ policy "WAYLAND_DISPLAY" none
            ∷ policy "GNUPGHOME" (some "/tmp/sandbox-gnupg-empty")
            ∷ policy "SANDBOX_DENY_UDP" (some "1")
            ∷ policy "SANDBOX_DENY_METADATA_ENDPOINTS" (some "1")
            ∷ policy "SANDBOX_DENY_ALL_INTERFACE_BIND" (some "1")
            ∷ [];
        browser_surface = some default_browser_surface;
        network_dns_policy = some (record default_dns_policy {
          blocked_hostnames =
              "host.docker.internal" ∷ "gateway.docker.internal" ∷ "kubernetes.docker.internal"
              ∷ "metadata.google.internal" ∷ [];
        });
      }
