-- ===== src/Project/Sources.antt =====
-- project/source.go: the checkouts of the projects, as git commands and removals of directories.
use mathlib.Core.List.{reverse}
use amp_sentinel.Prelude.{
  Bool, false, not, ◌||◌, List, [], ◌∷◌, ◌++◌, Option, none, some, ◌==◌, is_some, if◌then◌else◌,
}
use amp_sentinel.Prelude.Text.{Text, utf8, is_empty}
use amp_sentinel.Diagnosis.Paths.{FilePath, clean, split, enter_all}
use amp_sentinel.Effects.{
  ◌>>=◌, ◌>>◌, git, git_clone, remove_all, World, Action, pure, gets, perform,
}
use amp_sentinel.Project.Registry.{Project}
pub mod Confined

-- filepath.Join behind a cleaned path.
unfoldable pub join_under : FilePath → Text → FilePath
join_under p t = record p { names = reverse (enter_all p.rooted (reverse p.names) (split t)) }

unfoldable pub repo_dir : Text → Text → FilePath
repo_dir [] key = clean key
repo_dir (c ∷ base) key = join_under (clean (c ∷ base)) key

abbrev slashed : List Text → Text
slashed [] = []
slashed (n ∷ ns) = b'/' ∷ n ++ slashed ns

-- The text of a cleaned path.
unfoldable pub path_text : FilePath → Text
path_text p = if p.rooted then rooted_text p.names else relative_text p.names
  where
    rooted_text : List Text → Text
    rooted_text [] = b'/' ∷ []
    rooted_text (n ∷ ns) = b'/' ∷ n ++ slashed ns

    relative_text : List Text → Text
    relative_text [] = b'.' ∷ []
    relative_text (n ∷ ns) = n ++ slashed ns

unfoldable pub clone_args : Project → FilePath → List Text
clone_args p dest =
    utf8 "clone" ∷ utf8 "--depth=1" ∷ utf8 "--branch" ∷ p.branch ∷ p.repo_url ∷ path_text dest ∷ []

-- The loop of trimOutput, on the reversed text.
unfoldable pub drop_line_ends : Text → Text
drop_line_ends [] = []
drop_line_ends (c ∷ s) =
    let rest = drop_line_ends s in if c == 0x0A || c == 0x0D then rest else c ∷ s

unfoldable pub trim_output : Text → Text
trim_output s = reverse (drop_line_ends (reverse s))

module _ (world : World) (base_dir : Text) where
  -- SourceManager.git; `none` is an error.
  unfoldable pub run_git : FilePath → List Text → Action (Option Text)
  run_git dir args = do
    out ← gets (λ tr. world.git_output tr dir args)
    perform (git dir args)
    pure (elim out [ none ↦ none | some s ↦ some (trim_output s) ])

  unfoldable pub delete : FilePath → Action Bool
  delete dir = do
    removed ← gets (λ tr. world.removes tr dir)
    perform (remove_all dir)
    pure removed

  -- Fetch, then reset; the result says whether both succeeded.
  unfoldable pub git_pull : FilePath → Text → Action Bool
  git_pull dir branch = do
    fetched ← run_git dir (utf8 "fetch" ∷ utf8 "--depth=1" ∷ utf8 "origin" ∷ branch ∷ [])
    if is_some fetched
        then (do
          reset ← run_git dir (utf8 "reset" ∷ utf8 "--hard" ∷ utf8 "FETCH_HEAD" ∷ [])
          pure (is_some reset))
        else pure false

  -- gitClone: the command runs in the program's own directory; the last argument is where it writes.
  unfoldable pub run_clone : Project → FilePath → Action Bool
  run_clone p dest = do
    let args = clone_args p dest
    cloned ← gets (λ tr. world.clones tr args)
    perform (git_clone args)
    pure cloned

  -- cloneAndReturn
  unfoldable pub clone_and_return : Project → FilePath → FilePath → Action (Option FilePath)
  clone_and_return p dir src_dir = do
    cloned ← run_clone p dir
    pure (if cloned then some src_dir else none)

  unfoldable pub remove_and_clone : Project → FilePath → FilePath → Action (Option FilePath)
  remove_and_clone p dir src_dir = do
    removed ← delete dir
    if removed then clone_and_return p dir src_dir else pure none

  -- Prepare; `none` is an error.
  unfoldable pub prepare : Project → Action (Option FilePath)
  prepare p = do
    let dir = repo_dir base_dir p.key
    let src_dir = join_under dir p.source_root
    has_git ← gets (λ tr. world.is_there tr (join_under dir (utf8 ".git")))
    if has_git
        then (do
          pulled ← git_pull dir p.branch
          if pulled then pure (some src_dir) else remove_and_clone p dir src_dir)
        else (do
          stale ← gets (λ tr. world.is_there tr dir)
          if stale then remove_and_clone p dir src_dir else clone_and_return p dir src_dir)

  -- CommitHash; `none` is an error.
  unfoldable pub commit_hash : Text → Action (Option Text)
  commit_hash key =
      run_git (repo_dir base_dir key) (utf8 "rev-parse" ∷ utf8 "--short" ∷ utf8 "HEAD" ∷ [])

  -- HasChanges; `none` is an error.
  unfoldable pub has_changes : Text → Action (Option Bool)
  has_changes key = do
    out ← run_git (repo_dir base_dir key) (utf8 "status" ∷ utf8 "--porcelain" ∷ [])
    pure (elim out [ none ↦ none | some s ↦ some (not (is_empty s)) ])

  -- ResetChanges; the result says whether it succeeded.
  unfoldable pub reset_changes : Text → Action Bool
  reset_changes key = do
    undone ← run_git (repo_dir base_dir key) (utf8 "checkout" ∷ utf8 "--" ∷ utf8 "." ∷ [])
    if is_some undone
        then (do
          cleaned ← run_git (repo_dir base_dir key) (utf8 "clean" ∷ utf8 "-fd" ∷ [])
          pure (is_some cleaned))
        else pure false
