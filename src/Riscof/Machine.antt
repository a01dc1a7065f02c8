-- ===== src/Riscof/Machine.antt =====
-- A plugin's method: the shell commands that it runs, and the exception that ends it. What the
-- machine answers may depend on every command run so far.
use sisrv_platform.Prelude.{ℤ, ℕ, List, [], ◌∷◌, ◌++◌, Text, Result, ok, err}

-- `SystemExit`, and the exceptions of the standard library.
pub data Stop : Type 0 where
  system_exit : ℕ → Stop
  key_error : Text → Stop
  value_error : Stop
  format_error : Stop

-- A shell command and the directory that it is run in.
pub record Command : Type 0 where
  pub line : Text
  pub cwd : Text

-- The commands run so far, the last one last.
abbrev pub History : Type 0
History = List Command

-- The history is kept by an exception.
abbrev pub Action : Type 0 → Type 0
Action A = History → Result Stop A × History

infixl 5 ◌>>=◌ ◌>>◌
abbrev pub ◌>>=◌ : {A B : Type 0} → Action A → (A → Action B) → Action B
◌>>=◌ m f h = let (r, h') = m h in elim r [ ok a ↦ f a h' | err e ↦ (err e, h') ]

abbrev pub ◌>>◌ : {A B : Type 0} → Action A → Action B → Action B
m >> k = m >>= λ _. k

abbrev pub pure : {A : Type 0} → A → Action A
pure a h = (ok a, h)

abbrev pub raise : {A : Type 0} → Stop → Action A
raise e h = (err e, h)

abbrev pub lift : {A : Type 0} → Result Stop A → Action A
lift r h = (r, h)

-- utils.shellCommand(line).run(cwd=cwd), whose exit code is not looked at
abbrev pub shell : Text → Text → Action (Unit {0})
shell line cwd h = (ok tt, h ++ record { line = line; cwd = cwd } ∷ [])

-- A process whose output is read: its exit code and its standard output.
pub record Output : Type 0 where
  pub returncode : ℤ
  pub stdout : Text

-- What the machine answers to `nm`, given its arguments and the history.
abbrev pub Nm : Type 0
Nm = List Text → History → Output
