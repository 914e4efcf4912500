-- ===== src/Lib.antt =====
-- Sandbox Tester: models of the Docker harness (src/docker_sandbox/) and of the core of the test
-- engine (src/sandbox_tester/), and what holds of them.
--
-- The program probes what an AI agent's runtime permits. Its Docker harness picks one of eighteen
-- profiles, writes the files that the profile needs, starts an egress gateway where the profile
-- has one, and starts the container by one `docker run` command, whose script runs the test
-- engine, under the Landlock launcher where the profile has path rules. The engine runs the
-- capability groups, tells reporters what happens, and writes a report with or without evidence.
--
-- Common: the equality class `Eq` with the Boolean test `==`, lists (`fromkeys` is
--   `tuple(dict.fromkeys(xs))`), dicts as association lists in insertion order, `Result` for code
--   that raises, and the parts of Python's library that the source calls: text (Text),
--   `shlex.quote` (Shell; Shell.Words is how a shell splits a line), `str.format` with one named
--   field (Format), `PurePosixPath` (PosixPath).
-- Docker.Models, Docker.Profiles.Defaults: src/docker_sandbox/models.py, a record for a dataclass.
-- Docker.Profiles: src/docker_sandbox/profiles.py, a module for each profile; Table is the dict of
--   profiles, Lookup finds a profile, Controls and Strength compare two.
-- Docker.Constants, Environment, Executables, Gateway, Options, Script, Command:
--   src/docker_sandbox/sandbox_container.py. A function `_build_x` of the source is `build_x`. A
--   part of a function that has a loop or a branch of its own is a helper by clauses beside it. A
--   function that mutates a dict or a list in place returns the new one.
-- Docker.ConfigData: `_build_config_data` there, the context that the harness writes for the engine.
-- Docker.Run: `run_sandbox_container` there. An action continues the list of the effects (Effect) that
--   were tried so far, and returns or raises; a `Host` answers. What is written to a file as JSON is
--   the value that `json.dumps` prints. Quiet, Commands and Succeeds hold what is needed to reason
--   about actions.
-- Docker.Landlock: src/docker_sandbox/landlock_runner.py. The system calls are a trace, and a
--   kernel answers a call from the calls before it. `try: ... finally: os.close` is `closing`.
-- Docker.Image: src/docker_sandbox/container_factory.py, over a store of images that docker's commands
--   change.
-- Engine.Models, Engine.Testing, Engine.Runner, Engine.Output: models.py, testing.py, manager.py
--   and runner.py of src/sandbox_tester/. A test is three actions on a machine of any type, each of
--   which may raise; a run passes on the machine and the list of the events that reporters have
--   been told, and stops at the first exception of a test; the reporters are taken to raise nothing.
--   Engine.Json holds the values that `dataclasses.asdict` makes. The output directory is a dict of
--   files; a text is written in steps, of which a crash may leave the first ones only. The reporters of a run from files are those
--   of cli.py: each event is a line of `status.ndjson`. `invocation_result` and
--   `attempt_result` are the calls of the classes, which redact the evidence.
-- Engine.Context: `CapabilityContext` of src/sandbox_tester/testing.py, with `to_json_data` and
--   `from_json_data`. A field that the source annotates `str | None` holds any value, as in Python.
-- Engine.Redaction: src/sandbox_tester/redaction.py. A pattern says, at a place of a text, how many
--   characters it keeps and how many it replaces; `substitute` is `re.sub`, one pass over the text.
-- Groups.DiskSpace, Groups.Variables, Groups.ResourceLimits, Groups.Logs: group_04.py, group_05.py,
--   group_08.py and group_22.py of src/sandbox_tester/. Groups.Machine is what they call of the
--   standard library, with Python's exceptions as a data type whose constructors are the classes that
--   the handlers tell apart; an action on the machine answers or raises. Groups.Attempts runs
--   alternate attempts, Groups.Run is a run of the four groups by the engine.
--
-- What a function raises is `err`, with the message up to the value that it quotes by `repr`. The
-- loops run over lists and are structural recursions: there is no fuel, but in `decimal`, where the
-- number itself is enough, as each step divides it by ten. Numbers are natural; the masks of
-- Landlock stay below 2 ^ 15, so that no operation on them wraps.
--
-- Parameters: `urlparse(url).hostname` (the argument `hostname` of Docker.Gateway), which acls of
-- Squid match a request (`holds` of Docker.Gateway.Access), the kernel, the machine, docker and
-- the file system (`run` and `path_exists` of Docker.Image), the groups that the
-- factories of src/sandbox_tester/manager.py make, the machine of the groups (`Machine`), the drive
-- of a Windows path (`drive` of Groups.DiskSpace), `str` of a list and of a dict (`container_text`
-- of Engine.Context), the host of a container run (`Host` of Docker.Run.Host: the clock, the
-- environment, exceptions, the answers of docker, resolved paths, `ipaddress.ip_network`), the files
-- that tests leave in the output directory (`left_by_tests` of Engine.Output), what docker does with
-- `--tag` (`TagNames` of Docker.Image.Ensured).
--
-- Not modelled: the JSON texts of src/docker_sandbox/sandbox_container.py; `lower` and the patterns of
-- redaction.py beyond ASCII, where Python counts letters and white space of Unicode; exceptions of a
-- reporter; the command lines; the capability groups but the four named above, which work on sockets,
-- windows and devices; the text of the context's JSON file and the test directories; the texts of the
-- reporters; the local, QEMU and VirtualBox harnesses.
pub mod Common
pub mod Docker
pub mod Engine
pub mod Groups
