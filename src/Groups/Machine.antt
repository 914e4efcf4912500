-- ===== src/Groups/Machine.antt =====
-- What the tests call of the machine, and Python's exceptions as the tests tell them apart. An action
-- changes the machine, and answers or raises.
use sandbox_tester.Common.{
  ℕ, suc, String, ◌<>◌, Bool, Option, List, ◌==◌, number_eq, Result, ok, err, false, Char,
  if◌then◌else◌, code, leb, ◌+◌,
}
use sandbox_tester.Common.Text.{strip, is_space, decimal, replace}
use sandbox_tester.Common.PosixPath.{FilePath}

-- The exceptions, each with its `repr`. The first two are errors of the operating system as well.
pub data Raised : Type 0 where
  file_not_found permission_error os_error timeout_expired other_exception : String → Raised

abbrev pub repr : Raised → String
repr (file_not_found s) = s
repr (permission_error s) = s
repr (os_error s) = s
repr (timeout_expired s) = s
repr (other_exception s) = s

pub data Answer (A : Type 0) : Type 0 where
  returned : A → Answer A
  raised : Raised → Answer A

abbrev pub Action : Type 0 → Type 0 → Type 0
Action World A = World → World × Answer A

-- Python's `int`.
pub data ℤ : Type 0 where
  pos negsuc : ℕ → ℤ

abbrev pub int_text : ℤ → String
int_text (pos n) = decimal n
int_text (negsuc n) = "-" <> decimal (suc n)

abbrev pub is_code : ℕ → ℤ → Bool
is_code n (pos m) = m == n
is_code n (negsuc m) = false

-- `subprocess.CompletedProcess[str]`
pub record Completed : Type 0 where
  pub returncode : ℤ
  pub stdout : String
  pub stderr : String

-- The arguments of `subprocess.run`, always with `capture_output`, `text` and without `check`; `replace`
-- is `encoding="utf-8", errors="replace"`.
pub record Call : Type 0 where
  pub command : List String
  pub timeout : ℕ
  pub replace : Bool

pub record DiskUsage : Type 0 where
  pub total : ℕ
  pub used : ℕ
  pub free : ℕ

-- The operations of the standard library on the machine. Starting a thread may raise an exception. `str(path)` and `os.pathsep` depend on the
-- operating system.
pub record Machine (World : Type 0) : Type 0 where
  pub path_text : FilePath → String
  pub is_path_separator : Char → Bool
  pub run : Call → Action World Completed
  pub start_thread : World → World × Result (Unit {0})
  pub cpu_count : Action World (Option ℕ)
  pub disk_usage : String → Action World DiskUsage
  -- The names of `os.environ`, and `os.environ.get`.
  pub environment_names : Action World (List String)
  pub environment_variable : String → Action World (Option String)
  pub exists : FilePath → Action World Bool
  pub file_size : FilePath → Action World ℕ
  pub append_text : FilePath → String → Action World (Unit {0})
  pub read_first_line : FilePath → Action World String
  pub read_bytes : FilePath → ℕ → Action World ℕ
  -- `dt.datetime.now().astimezone().isoformat()` and `uuid.uuid4().hex`
  pub timestamp : Action World String
  pub fresh_id : Action World String

module _ {World : Type 0} where
  abbrev pub pure : {A : Type 0} → A → Action World A
  pure a w = (w, returned a)

  abbrev pub raise : {A : Type 0} → Raised → Action World A
  raise r w = (w, raised r)

  abbrev pub continue : {A B : Type 0} → World × Answer A → (A → Action World B) → World × Answer B
  continue (w, returned a) next = next a w
  continue (w, raised r) next = (w, raised r)

  infixl 5 ◌>>=◌
  abbrev pub ◌>>=◌ : {A B : Type 0} → Action World A → (A → Action World B) → Action World B
  action >>= next = λ w. continue (action w) next

  infixl 5 ◌>>◌
  abbrev pub ◌>>◌ : {B : Type 0} → Action World (Unit {0}) → Action World B → Action World B
  first >> rest = first >>= λ _. rest

  abbrev pub handled : {A : Type 0} → World × Answer A → (Raised → A) → World × A
  handled (w, returned a) handler = (w, a)
  handled (w, raised r) handler = (w, handler r)

  -- `try: ... except ...`, with a handler for every exception.
  abbrev pub try_except : {A : Type 0} → Action World A → (Raised → A) → World → World × A
  try_except body handler w = handled (body w) handler

  -- What the test engine is given by a method whose `try` has a handler for every exception.
  abbrev pub result_of : {A : Type 0} → World × A → World × Result A
  result_of (w, a) = (w, ok a)

module _ {World : Type 0} where
  abbrev pub when_started :
      {A : Type 0} → World × Result (Unit {0}) → (World → World × A) → World × Result A
  when_started (w, ok u) body = result_of (body w)
  when_started (w, err e) body = (w, err e)

  -- `return await asyncio.to_thread(body)`, which stands outside every `try`.
  abbrev pub to_thread :
      {A : Type 0} → Machine World → (World → World × A) → World → World × Result A
  to_thread machine body w = when_started (machine.start_thread w) body

-- `f"{completed.stdout}\n{completed.stderr}".strip()`
unfoldable pub combined_output : Completed → String
unfolding strip
combined_output c = strip is_space (c.stdout <> ("\n" <> c.stderr))

-- `text[:n]` is `take_chars n text`; this is the number of bytes of `text.encode()`.
unfoldable pub utf8_size : String → ℕ
utf8_size String.[] = 0
utf8_size (String.◌∷◌ c s) =
    (if leb (code c) 127
      then 1
      else if leb (code c) 2047
      then 2
      else if leb (code c) 65535
      then 3
      else 4)
    + utf8_size s

-- `'` becomes `''`: `_quote_powershell_string`.
unfoldable pub quote_powershell_string : String → String
unfolding replace
quote_powershell_string value = "'" <> (replace (λ c. code c == 39) "''" value <> "'")
