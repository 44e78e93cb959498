-- ===== src/Diagnosis/Engine/Guarded.antt =====
-- diagnosis/engine.go, Diagnose: the project's lock on every path.
use amp_sentinel.Prelude.{
  ◌≡◌, refl, ◌∷◌, Bool, true, false, Option, none, some, arith, is_some, Bool-cases, inl, inr,
}
use amp_sentinel.Prelude.Text.{Text, text_eq_refl}
use amp_sentinel.Intake.Event.{RawEvent}
use amp_sentinel.Intake.Fingerprint.{Codec}
use amp_sentinel.Amp.Types.{ExecuteResult}
use amp_sentinel.Amp.Client.{ExecuteError}
use amp_sentinel.Effects.{lock, unlock, World, Trace}
use amp_sentinel.Effects.Guarded.{held, held_after, Keeps}
use amp_sentinel.Project.Registry.{Project, lookup_project}
use amp_sentinel.Project.Sources.{repo_dir, prepare, has_changes}
use amp_sentinel.Project.Sources.Confined.{
  prepare-Keeps, commit_hash-Keeps, has_changes-Keeps, reset_changes-Keeps,
}
use amp_sentinel.Diagnosis.Paths.{FilePath}
use amp_sentinel.Diagnosis.Types.{DiagnosisJson}
use amp_sentinel.Diagnosis.Report.{Report}
use amp_sentinel.Diagnosis.Payload.{Patterns}
use amp_sentinel.Diagnosis.Fixer.{run_json_fixer}
use amp_sentinel.Diagnosis.Engine.{FingerprintLookup, Engine, Seen}
use amp_sentinel.Diagnosis.Engine.Steps.{
  commit_or_empty, mark_tainted, check_tainted, open_log, close_log,
}
use amp_sentinel.Diagnosis.Engine.Diagnose.{
  try_reuse, try_found, search_reuse, look_for_reuse, fix_answer, read_answer, run_in_checkout,
  judge, judge_run, diagnose_source, diagnose_anew, unless_reused, diagnose_project, diagnose,
}

module _ (world : World) (engine : Engine) (key : Text) where
  abbrev dir : FilePath
  dir = repo_dir engine.base_dir key

  commit_or_empty-Keeps : Keeps key dir (commit_or_empty world engine key)
  unfolding commit_or_empty
  commit_or_empty-Keeps tr h = ground (arith, commit_hash-Keeps world engine.base_dir key tr h)

  mark_tainted-Keeps : (o : Option Bool) → Keeps key dir (mark_tainted world engine o key)
  unfolding mark_tainted
  mark_tainted-Keeps none tr h = h
  mark_tainted-Keeps (some false) tr h = h
  mark_tainted-Keeps (some true) tr h =
      ground (arith, reset_changes-Keeps world engine.base_dir key tr h)

  check_tainted-Keeps : Keeps key dir (check_tainted world engine key)
  unfolding check_tainted
  check_tainted-Keeps tr h =
      let changed = has_changes world engine.base_dir key tr in
      mark_tainted-Keeps changed.0 changed.1 (has_changes-Keeps world engine.base_dir key tr h)

  close_log-Keeps : (o : Option Text) (seen : Seen) → Keeps key dir (close_log world engine o seen)
  unfolding close_log held held_after
  close_log-Keeps none seen tr h = h
  close_log-Keeps (some name) seen tr h = h

  fixer-Keeps :
      (unmarshal : Text → Option DiagnosisJson) → Keeps key dir (run_json_fixer world unmarshal)
  unfolding run_json_fixer held held_after
  fixer-Keeps unmarshal tr h = ground (arith, h)

module _ (world : World) (codec : Codec) (patterns : Patterns)
    (unmarshal : Text → Option DiagnosisJson) (engine : Engine) (proj : Project)
    (event : RawEvent) where
  abbrev checkout : FilePath
  checkout = repo_dir engine.base_dir proj.key

  abbrev IsFree : Trace → Type 0
  IsFree tr = held proj.key checkout tr ≡ some false

  abbrev IsHeld : Trace → Type 0
  IsHeld tr = held proj.key checkout tr ≡ some true

  fix_answer-Keeps :
      (o : Option DiagnosisJson)
      → Keeps proj.key checkout (fix_answer world codec patterns unmarshal engine o)
  unfolding fix_answer
  fix_answer-Keeps (some d) tr h = h
  fix_answer-Keeps none tr h = ground (arith, h, fixer-Keeps world engine proj.key unmarshal tr h)

  read_answer-Keeps :
      (result : ExecuteResult) (src_dir : FilePath)
      → Keeps proj.key checkout (read_answer world codec patterns unmarshal engine result src_dir)
  unfolding read_answer
  read_answer-Keeps result src_dir tr h = grind (arith, h, fix_answer-Keeps)

  run_in_checkout-Keeps :
      (src_dir : FilePath)
      → Keeps proj.key checkout
          (run_in_checkout world codec patterns unmarshal engine event proj src_dir)
  unfolding run_in_checkout open_log held held_after
  run_in_checkout-Keeps src_dir tr h = close_log-Keeps world engine proj.key _ _ _ (rw h refl)

  lock-holds : (tr : Trace) → IsFree tr → IsHeld (lock proj.key ∷ tr)
  unfolding held held_after
  lock-holds tr h = ground (arith, h, text_eq_refl proj.key)

  unlock-frees : (tr : Trace) → IsHeld tr → IsFree (unlock proj.key ∷ tr)
  unfolding held held_after
  unlock-frees tr h = ground (arith, h, text_eq_refl proj.key)

  judge-frees :
      (fingerprint hash : Text) (src_dir : FilePath) (result : ExecuteResult) (seen : Seen)
      (tr : Trace)
      → IsHeld tr
      → IsFree
          (judge world codec patterns unmarshal engine event proj fingerprint hash src_dir result
            seen tr).1
  unfolding judge
  judge-frees fingerprint hash src_dir result seen tr h =
      let after = check_tainted world engine proj.key tr in
      unlock-frees _
        (read_answer-Keeps result src_dir after.1 (check_tainted-Keeps world engine proj.key tr h))

  judge_run-frees :
      (fingerprint hash : Text) (src_dir : FilePath)
      (ran : Option ExecuteError × ExecuteResult × Seen) (tr : Trace)
      → IsHeld tr
      → IsFree
          (judge_run world codec patterns unmarshal engine event proj fingerprint hash src_dir ran
            tr).1
  unfolding judge_run
  judge_run-frees fingerprint hash src_dir (some e, result, seen) tr h = unlock-frees tr h
  judge_run-frees fingerprint hash src_dir (none, result, seen) tr h =
      judge-frees fingerprint hash src_dir result seen tr h

  diagnose_source-frees :
      (o : Option FilePath) (fingerprint : Text) (tr : Trace)
      → IsHeld tr
      → IsFree (diagnose_source world codec patterns unmarshal engine o event proj fingerprint tr).1
  unfolding diagnose_source
  diagnose_source-frees none fingerprint tr h = unlock-frees tr h
  diagnose_source-frees (some src_dir) fingerprint tr h =
      judge_run-frees fingerprint _ src_dir _ _
        (run_in_checkout-Keeps src_dir _ (commit_or_empty-Keeps world engine proj.key tr h))

  diagnose_anew-IsFree :
      (fingerprint : Text) (tr : Trace)
      → IsFree tr
      → IsFree (diagnose_anew world codec patterns unmarshal engine event proj fingerprint tr).1
  unfolding diagnose_anew
  diagnose_anew-IsFree fingerprint tr h =
      diagnose_source-frees _ fingerprint _
        (prepare-Keeps world engine.base_dir proj _ (lock-holds tr h))

  try_reuse-IsFree :
      (cached : Report) (fingerprint : Text) (tr : Trace)
      → IsFree tr
      → IsFree (try_reuse world codec patterns unmarshal engine cached event proj fingerprint tr).1
  unfolding try_reuse
  try_reuse-IsFree cached fingerprint tr h =
      let prepared = prepare world engine.base_dir proj (lock proj.key ∷ tr) in
      let kept = prepare-Keeps world engine.base_dir proj _ (lock-holds tr h) in
      elim (Bool-cases (is_some prepared.0)) [
        | inl b ↦ rw b (unlock-frees _ (commit_or_empty-Keeps world engine proj.key _ kept))
        | inr b ↦ rw b (unlock-frees _ kept)
      ]

  try_found-IsFree :
      (o : Option (Option Report)) (fingerprint : Text) (tr : Trace)
      → IsFree tr
      → IsFree (try_found world codec patterns unmarshal engine o event proj fingerprint tr).1
  unfolding try_found
  try_found-IsFree none fingerprint tr h = h
  try_found-IsFree (some none) fingerprint tr h = h
  try_found-IsFree (some (some cached)) fingerprint tr h = try_reuse-IsFree cached fingerprint tr h

  look_for_reuse-IsFree :
      (o : Option FingerprintLookup) (tr : Trace)
      → IsFree tr
      → IsFree (look_for_reuse world codec patterns unmarshal engine o event proj tr).1
  unfolding look_for_reuse search_reuse held held_after
  look_for_reuse-IsFree none tr h = h
  look_for_reuse-IsFree (some lookup) tr h = try_found-IsFree _ _ _ (rw h refl)

  unless_reused-IsFree :
      (o : Option Report) (tr : Trace)
      → IsFree tr
      → IsFree (unless_reused world codec patterns unmarshal engine o event proj tr).1
  unfolding unless_reused
  unless_reused-IsFree (some r) tr h = h
  unless_reused-IsFree none tr h = diagnose_anew-IsFree _ tr h

  -- On every path of a diagnosis, errors and a reused report included, the project's lock is taken only when it is free and released only
  -- when it is held, git and removals act in the project's directory alone, clones write to it alone, and they and the
  -- agent's runs come under the lock, the store is searched without it, and it is free at the end.
  pub diagnose-held :
      (tr : Trace)
      → lookup_project engine.registry event.project_key ≡ some proj
      → held proj.key (repo_dir engine.base_dir proj.key) tr ≡ some false
      → held proj.key
          (repo_dir engine.base_dir proj.key)
          (diagnose world codec patterns unmarshal engine event tr).1
        ≡ some false
  unfolding diagnose diagnose_project
  diagnose-held tr found h = rw found (unless_reused-IsFree _ _ (look_for_reuse-IsFree _ tr h))
