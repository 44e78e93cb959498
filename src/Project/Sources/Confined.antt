-- ===== src/Project/Sources/Confined.antt =====
-- project/source.go: the operations on a checkout act in the project's directory alone, under its lock.
use amp_sentinel.Prelude.{List, arith}
use amp_sentinel.Prelude.Text.{Text, text_eq_refl}
use amp_sentinel.Diagnosis.Paths.{FilePath}
use amp_sentinel.Effects.{World}
use amp_sentinel.Effects.Guarded.{path_eq_refl, held, held_after, Keeps}
use amp_sentinel.Project.Registry.{Project}
use amp_sentinel.Project.Sources.{
  join_under, repo_dir, path_text, clone_args, run_git, run_clone, delete, git_pull,
  clone_and_return, remove_and_clone, prepare, commit_hash, has_changes, reset_changes,
}

module _ (world : World) (base_dir key : Text) where
  abbrev dir : FilePath
  dir = repo_dir base_dir key

  run_git-Keeps : (args : List Text) → Keeps key dir (run_git world base_dir dir args)
  unfolding run_git held held_after
  run_git-Keeps args tr h = ground (arith, h, path_eq_refl dir)

  delete-Keeps : Keeps key dir (delete world base_dir dir)
  unfolding delete held held_after
  delete-Keeps tr h = ground (arith, h, path_eq_refl dir)

  git_pull-Keeps : (branch : Text) → Keeps key dir (git_pull world base_dir dir branch)
  unfolding git_pull
  git_pull-Keeps branch tr h = grind (arith, run_git-Keeps)

  module _ (p : Project) (src_dir : FilePath) where
    clone-Keeps : Keeps key dir (clone_and_return world base_dir p dir src_dir)
    unfolding clone_and_return run_clone clone_args held held_after
    clone-Keeps tr h = ground (arith, h, text_eq_refl (path_text dir))

    remove_and_clone-Keeps : Keeps key dir (remove_and_clone world base_dir p dir src_dir)
    unfolding remove_and_clone
    remove_and_clone-Keeps tr h = grind (arith, delete-Keeps, clone-Keeps)

  pub commit_hash-Keeps : Keeps key dir (commit_hash world base_dir key)
  unfolding commit_hash
  commit_hash-Keeps = run_git-Keeps _

  pub has_changes-Keeps : Keeps key dir (has_changes world base_dir key)
  unfolding has_changes
  has_changes-Keeps tr h = grind (arith, run_git-Keeps)

  pub reset_changes-Keeps : Keeps key dir (reset_changes world base_dir key)
  unfolding reset_changes
  reset_changes-Keeps tr h = grind (arith, run_git-Keeps)

pub prepare-Keeps :
    (world : World) (base_dir : Text) (p : Project)
    → Keeps p.key (repo_dir base_dir p.key) (prepare world base_dir p)
unfolding prepare
prepare-Keeps world base_dir p tr h =
    let d = repo_dir base_dir p.key in
    let src = join_under d p.source_root in
    let pulled = (git_pull world base_dir d p.branch tr).1 in
    ground (
      arith,
      git_pull-Keeps world base_dir p.key p.branch tr h,
      clone-Keeps world base_dir p.key p src tr h,
      remove_and_clone-Keeps world base_dir p.key p src tr h,
      remove_and_clone-Keeps world base_dir p.key p src pulled,
    )
