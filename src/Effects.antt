-- ===== src/Effects.antt =====
-- What a diagnosis does outside itself, as a trace, and what it is answered. The latest effect stands first.
pub mod Guarded
use amp_sentinel.Prelude.{ℕ, Bool, List, ◌∷◌, Option}
use amp_sentinel.Prelude.Text.{Text}
use amp_sentinel.Diagnosis.Paths.{FilePath}
use amp_sentinel.Diagnosis.Verify.{Files}
use amp_sentinel.Amp.Types.{StreamMessage}
use amp_sentinel.Amp.Client.{Process}

-- Locks and releases of a project, git commands in a directory, clones with their arguments, removals, runs of the agent in a directory under rules,
-- searches for a report, and session logs with what was written to them.
pub data Effect : Type 0 where
  lock unlock : Text → Effect
  git : FilePath → List Text → Effect
  git_clone : List Text → Effect
  remove_all : FilePath → Effect
  run_agent : Text → List Text → Effect
  find_report : Text → Text → ℕ → Effect
  session_log : Text → List StreamMessage → Effect

abbrev pub Trace : Type 0
Trace = List Effect

-- The answers, which may depend on all that was done before. Git gives its output, or nothing for an error; a clone and
-- a removal say whether they succeed; `is_there` is os.Stat without an error; `opens_log` says whether a session log is made.
pub record World : Type 0 where
  pub git_output : Trace → FilePath → List Text → Option Text
  pub clones : Trace → List Text → Bool
  pub removes : Trace → FilePath → Bool
  pub is_there : Trace → FilePath → Bool
  pub process : Trace → Process
  pub files : Trace → Files
  pub opens_log : Trace → Text → Bool
  pub now : Trace → ℕ

abbrev pub Action : Type 0 → Type 0
Action A = Trace → A × Trace

abbrev pub pure : {A : Type 0} → A → Action A
pure a tr = (a, tr)

infixl 5 ◌>>=◌ ◌>>◌
abbrev pub ◌>>=◌ : {A B : Type 0} → Action A → (A → Action B) → Action B
◌>>=◌ m f tr = let (a, after) = m tr in f a after

abbrev pub ◌>>◌ : {A B : Type 0} → Action A → Action B → Action B
m >> k = m >>= λ _. k

-- What the trace determines.
abbrev pub gets : {A : Type 0} → (Trace → A) → Action A
gets f tr = (f tr, tr)

abbrev pub perform : Effect → Action (Unit {0})
perform e tr = (tt, e ∷ tr)
