-- ===== src/Project/Registry.antt =====
-- project/registry.go: the registered projects.
use amp_sentinel.Prelude.{ℕ, Bool, List, [], ◌∷◌, Option, length, map, is_some, if◌then◌else◌}
use amp_sentinel.Prelude.Text.{Text, utf8, is_empty}
use amp_sentinel.Store.Table.{find_record, put_record}
pub mod Latest

pub record ProjectDedupConfig : Type 0 where
  pub fields : List Text
  pub window : Text

pub record Project : Type 0 where
  pub key : Text
  pub name : Text
  pub repo_url : Text
  pub branch : Text
  pub language : Text
  pub source_root : Text
  pub skills : List Text
  pub owners : List Text
  pub feishu_webhook : Text
  pub dedup : ProjectDedupConfig

-- The map from keys, as the list of its values.
pub record Registry : Type 0 where
  pub projects : List Project

abbrev pub project_key : Project → Text
project_key p = p.key

-- The defaults of one round of the loop of NewRegistry.
unfoldable pub with_defaults : Project → Project
with_defaults p = record p {
  branch = if is_empty p.branch then utf8 "main" else p.branch;
  source_root = if is_empty p.source_root then utf8 "." else p.source_root;
}

unfoldable pub add_projects : List Project → List Project → List Project
add_projects m [] = m
add_projects m (p ∷ ps) = add_projects (put_record project_key m (with_defaults p)) ps

unfoldable pub new_registry : List Project → Registry
new_registry ps = record { projects = add_projects [] ps }

-- `none` is the error "project not registered".
unfoldable pub lookup_project : Registry → Text → Option Project
lookup_project r key = find_record project_key r.projects key

unfoldable pub exists : Registry → Text → Bool
exists r key = is_some (find_record project_key r.projects key)

unfoldable pub count_projects : Registry → ℕ
count_projects r = length r.projects

-- `All` and `Keys`, in one order of iteration.
unfoldable pub all_projects : Registry → List Project
all_projects r = r.projects

unfoldable pub keys : Registry → List Text
keys r = map project_key r.projects
