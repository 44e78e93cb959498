-- ===== src/Project/Registry/Latest.antt =====
-- project/registry.go: which of the configured projects a lookup finds.
use amp_sentinel.Prelude.{
  ◌≡◌, refl, ◌∙◌, inl, inr, List, [], ◌∷◌, Option, none, some, Bool-cases, if◌then◌else◌,
}
use amp_sentinel.Prelude.Text.{Text, text_eq}
use amp_sentinel.Store.Table.{
  find_record, put_record, find_record-put_record, IsDistinct, put_record-IsDistinct,
}
use amp_sentinel.Project.Registry.{
  Project, project_key, with_defaults, add_projects, new_registry, lookup_project,
}

-- The last project of the list with this key.
unfoldable pub last_with : Text → List Project → Option Project → Option Project
last_with k [] found = found
last_with k (p ∷ ps) found = last_with k ps (if text_eq p.key k then some p else found)

unfoldable pub defaulted : Option Project → Option Project
defaulted none = none
defaulted (some p) = some (with_defaults p)

found_next :
    (p : Project) (m : List Project) (k : Text) (found : Option Project)
    → find_record project_key m k ≡ defaulted found
    → find_record project_key (put_record project_key m (with_defaults p)) k
      ≡ defaulted (if text_eq p.key k then some p else found)
unfolding defaulted with_defaults
found_next p m k found h = elim (Bool-cases (text_eq p.key k)) [
  | inl e ↦ find_record-put_record project_key m (with_defaults p) k ∙ rw e refl
  | inr e ↦ find_record-put_record project_key m (with_defaults p) k ∙ rw e h
]

find-add_projects :
    (ps m : List Project) (k : Text) (found : Option Project)
    → find_record project_key m k ≡ defaulted found
    → find_record project_key (add_projects m ps) k ≡ defaulted (last_with k ps found)
unfolding add_projects last_with
find-add_projects [] m k found h = h
find-add_projects (p ∷ ps) m k found h =
    find-add_projects ps (put_record project_key m (with_defaults p)) k
      (if text_eq p.key k then some p else found) (found_next p m k found h)

-- A lookup finds the last of the configured projects with this key, with its defaults set, and fails exactly when there is none.
pub lookup_project-new_registry :
    (ps : List Project) (k : Text)
    → lookup_project (new_registry ps) k ≡ defaulted (last_with k ps none)
unfolding lookup_project new_registry find_record defaulted
lookup_project-new_registry ps k = find-add_projects ps [] k none refl

add_projects-IsDistinct :
    (ps m : List Project) → IsDistinct project_key m → IsDistinct project_key (add_projects m ps)
unfolding add_projects
add_projects-IsDistinct [] m d = d
add_projects-IsDistinct (p ∷ ps) m d =
    add_projects-IsDistinct ps (put_record project_key m (with_defaults p))
      (put_record-IsDistinct project_key m (with_defaults p) d)
