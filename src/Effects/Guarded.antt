-- ===== src/Effects/Guarded.antt =====
-- The rule for a project's lock: diagnosis/engine.go takes it before it touches the checkout, and searches the store
-- without it; project/source.go, Lock, says what it is for.
use amp_sentinel.Prelude.{
  ◌≡◌, refl, Bool, true, false, ◌&&◌, not, List, [], ◌∷◌, Option, none, some, arith, if◌then◌else◌,
}
use amp_sentinel.Prelude.Text.{Text, text_eq, text_eq_refl}
use amp_sentinel.Diagnosis.Paths.{FilePath}
use amp_sentinel.Project.Sources.{path_text}
use amp_sentinel.Effects.{
  Effect, lock, unlock, git, git_clone, remove_all, run_agent, find_report, session_log, Trace,
  Action,
}

unfoldable pub names_eq : List Text → List Text → Bool
names_eq [] [] = true
names_eq (x ∷ xs) (y ∷ ys) = text_eq x y && names_eq xs ys
names_eq _ _ = false

names_eq_refl : (xs : List Text) → names_eq xs xs ≡ true
unfolding names_eq
names_eq_refl [] = refl
names_eq_refl (x ∷ xs) = ground (arith, text_eq_refl x, names_eq_refl xs)

abbrev same_bool : Bool → Bool → Bool
same_bool true b = b
same_bool false b = not b

unfoldable pub path_eq : FilePath → FilePath → Bool
path_eq p q = same_bool p.rooted q.rooted && names_eq p.names q.names

same_bool_refl : (b : Bool) → same_bool b b ≡ true
same_bool_refl true = refl
same_bool_refl false = refl

pub path_eq_refl : (p : FilePath) → path_eq p p ≡ true
unfolding path_eq
path_eq_refl p = ground (arith, same_bool_refl p.rooted, names_eq_refl p.names)

-- Where a clone writes: its last argument.
abbrev pub target : List Text → Text
target [] = []
target (a ∷ []) = a
target (a ∷ b ∷ args) = target (b ∷ args)

module _ (key : Text) (dir : FilePath) where
  -- Whether the lock is held after one more effect. A rule that is broken leaves nothing: the lock is taken only when it
  -- is free, and released only when it is held; git, clones, removals and the agent need it; git and removals stay in
  -- the directory, and a clone writes to it; the store is searched while it is free.
  unfoldable pub held_after : Effect → Option Bool → Option Bool
  held_after (lock k) (some false) = if text_eq k key then some true else none
  held_after (unlock k) (some true) = if text_eq k key then some false else none
  held_after (git d args) (some true) = if path_eq d dir then some true else none
  held_after (git_clone args) (some true) =
      if text_eq (target args) (path_text dir) then some true else none
  held_after (remove_all d) (some true) = if path_eq d dir then some true else none
  held_after (run_agent d rules) (some true) = some true
  held_after (find_report k f since) (some false) = some false
  held_after (session_log name msgs) h = h
  held_after _ _ = none

  unfoldable pub held : Trace → Option Bool
  held [] = some false
  held (e ∷ tr) = held_after e (held tr)

  -- An action that needs the lock and keeps it.
  abbrev pub Keeps : {A : Type 0} → Action A → Type 0
  Keeps m = (tr : Trace) → held tr ≡ some true → held (m tr).1 ≡ some true
