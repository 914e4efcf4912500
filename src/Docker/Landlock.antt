-- ===== src/Docker/Landlock.antt =====
-- The Landlock launcher: src/docker_sandbox/landlock_runner.py. The kernel answers the system calls.
pub mod Access
pub mod Order
use Prim.Native.Nat.{bit_and, bit_or}
use sandbox_tester.Common.PosixPath.{FilePath}
use sandbox_tester.Common.{
  ℕ, Char, code, String, ◌<>◌, Option, none, some, List, [], ◌∷◌, ◌++◌, ◌==◌, number_eq, leb,
  if◌then◌else◌, Result, ok, err, value_error, os_error, ◌>>=◌,
}

-- The access rights of the kernel, one bit each.
abbrev pub read_rights : ℕ
read_rights = 12

abbrev pub execute_rights : ℕ
execute_rights = 1

abbrev pub write_rights : ℕ
write_rights = 8178

abbrev pub access_fs_refer : ℕ
access_fs_refer = 8192

abbrev pub access_fs_truncate : ℕ
access_fs_truncate = 16384

-- `_ACCESS_BY_NAME`
unfoldable pub access_by_name : Char → Option ℕ
access_by_name c =
    if code c == b'r'
    then some read_rights
    else if code c == b'w'
    then some write_rights
    else if code c == b'x'
    then some execute_rights
    else none

abbrev pub with_rights : Option ℕ → Char → Result ℕ
with_rights none c = err (value_error ("Unknown Landlock access right: " <> String.◌∷◌ c ""))
with_rights (some rights) c = ok rights

-- The loop of `_parse_access`.
unfoldable pub collect_rights : ℕ → String → Result ℕ
collect_rights rights String.[] = ok rights
collect_rights rights (String.◌∷◌ c access) = elim (with_rights (access_by_name c) c) [
  | ok more ↦ collect_rights (bit_or rights more) access
  | err e ↦ err e
]

unfoldable pub parse_access : String → Result ℕ
parse_access access = do
  rights ← collect_rights 0 access
  ok (bit_or rights (bit_or access_fs_refer access_fs_truncate))

unfoldable pub supported_access_mask : ℕ → ℕ
supported_access_mask abi_version =
    let access = bit_or (bit_or read_rights execute_rights) write_rights in
    let with_refer = if leb 2 abi_version then bit_or access access_fs_refer else access in
    if leb 3 abi_version then bit_or with_refer access_fs_truncate else with_refer

-- `_PathRule`
pub record PathRule : Type 0 where
  pub path : FilePath
  pub access : String

-- What the launcher asks of the kernel.
pub data Call : Type 0 where
  get_abi_version : Call
  create_ruleset : ℕ → Call
  open_path : FilePath → Call
  add_rule : ℕ → ℕ → ℕ → Call
  close : ℕ → Call
  set_no_new_privileges : Call
  restrict_self : ℕ → Call

-- The kernel's answer to a call, after the calls before it: a number, or an error number.
pub data Answer : Type 0 where
  value : ℕ → Answer
  failure : ℕ → Answer

abbrev pub Kernel : Type 0
Kernel = List Call → Call → Answer

-- The calls made, the latest last, and the result.
abbrev pub Run {ℓ} : Type ℓ → Type ℓ
Run A = List Call → List Call × Result A

abbrev pub answered : Answer → Result ℕ
answered (value n) = ok n
answered (failure n) = err (os_error n)

module _ (kernel : Kernel) where
  abbrev pub call : Call → Run ℕ
  call c trace = (trace ++ c ∷ [], answered (kernel trace c))

abbrev pub then_run {ℓ κ} :
    {A : Type ℓ} {B : Type κ} → List Call × Result A → (A → Run B) → List Call × Result B
then_run (trace, ok a) f = f a trace
then_run (trace, err e) f = (trace, err e)

-- `try: … finally: os.close(fd)`: an error of `close` replaces the result.
abbrev pub after_close {ℓ} : {A : Type ℓ} → Result A → Result ℕ → Result A
after_close result (ok n) = result
after_close result (err e) = err e

module _ (kernel : Kernel) where
  abbrev pub closing {ℓ} : {A : Type ℓ} → ℕ → List Call × Result A → List Call × Result A
  closing fd (trace, result) =
      let (trace', closed) = call kernel (close fd) trace in (trace', after_close result closed)

  -- The rule is added beneath the opened path, which is closed whatever the kernel answers.
  abbrev pub add_beneath : ℕ → ℕ → ℕ → Run ℕ
  add_beneath ruleset_fd allowed_access parent_fd trace =
      closing parent_fd (call kernel (add_rule ruleset_fd allowed_access parent_fd) trace)

  -- `_add_path_rule`, once the access is parsed: an unknown letter stops it before the path is opened.
  abbrev pub add_allowed : ℕ → PathRule → ℕ → Result ℕ → Run ℕ
  add_allowed ruleset_fd rule handled_access (err e) trace = (trace, err e)
  add_allowed ruleset_fd rule handled_access (ok rights) trace =
      then_run (call kernel (open_path rule.path) trace)
        (add_beneath ruleset_fd (bit_and rights handled_access))

  unfoldable pub add_path_rule : ℕ → PathRule → ℕ → Run ℕ
  add_path_rule ruleset_fd rule handled_access =
      add_allowed ruleset_fd rule handled_access (parse_access rule.access)

  unfoldable pub add_path_rules : ℕ → List PathRule → ℕ → Run ℕ
  add_path_rules ruleset_fd [] handled_access trace = (trace, ok 0)
  add_path_rules ruleset_fd (rule ∷ rules) handled_access trace =
      then_run (add_path_rule ruleset_fd rule handled_access trace)
        (λ _ trace'. add_path_rules ruleset_fd rules handled_access trace')

  -- The last two calls of the `try` in `_apply_landlock_rules`, and the whole of it.
  abbrev pub enforce : ℕ → Run ℕ
  enforce ruleset_fd trace =
      then_run (call kernel set_no_new_privileges trace)
        (λ _ trace'. call kernel (restrict_self ruleset_fd) trace')

  unfoldable pub restrict : ℕ → List PathRule → ℕ → Run ℕ
  restrict ruleset_fd rules handled_access trace =
      then_run (add_path_rules ruleset_fd rules handled_access trace)
        (λ _ trace'. enforce ruleset_fd trace')

  abbrev pub with_ruleset : List PathRule → ℕ → ℕ → Run ℕ
  with_ruleset rules handled_access ruleset_fd trace =
      closing ruleset_fd (restrict ruleset_fd rules handled_access trace)

  abbrev pub with_abi_version : List PathRule → ℕ → Run ℕ
  with_abi_version rules abi_version trace =
      then_run (call kernel (create_ruleset (supported_access_mask abi_version)) trace)
        (with_ruleset rules (supported_access_mask abi_version))

  unfoldable pub apply_landlock_rules : List PathRule → Run ℕ
  apply_landlock_rules rules trace =
      then_run (call kernel get_abi_version trace) (with_abi_version rules)
