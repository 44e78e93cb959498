-- ===== src/Diagnosis/Engine/Diagnose.antt =====
-- diagnosis/engine.go, Diagnose: the reuse of a report, the run of the agent, and what is made of it.
use amp_sentinel.Prelude.{ℕ, not, ◌&&◌, List, [], Option, none, some, is_some, if◌then◌else◌}
use amp_sentinel.Prelude.Int.{pos_part}
use amp_sentinel.Prelude.Text.{Text}
use amp_sentinel.Intake.Event.{RawEvent}
use amp_sentinel.Intake.Fingerprint.{Codec}
use amp_sentinel.Amp.Types.{ExecuteResult}
use amp_sentinel.Amp.Client.{ExecuteError, execute}
use amp_sentinel.Effects.{
  ◌>>=◌, ◌>>◌, lock, unlock, run_agent, find_report, World, Action, pure, gets, perform,
}
use amp_sentinel.Project.Registry.{Project, lookup_project}
use amp_sentinel.Project.Sources.{path_text, prepare}
use amp_sentinel.Diagnosis.Paths.{FilePath}
use amp_sentinel.Diagnosis.Types.{DiagnosisJson, QualityScore}
use amp_sentinel.Diagnosis.Score.{assess}
use amp_sentinel.Diagnosis.Verify.{Files, verify_code_locations}
use amp_sentinel.Diagnosis.Parse.{parse_diagnosis_json}
use amp_sentinel.Diagnosis.Report.{Report}
use amp_sentinel.Diagnosis.Reuse.{can_reuse, build_reused_report}
use amp_sentinel.Diagnosis.Payload.{Patterns, compute_diagnosis_fingerprint}
use amp_sentinel.Diagnosis.Assembly.{build_report}
use amp_sentinel.Diagnosis.Fixer.{run_json_fixer}
use amp_sentinel.Diagnosis.Engine.{
  FingerprintLookup, Engine, before, project_lookup, source_prepare, amp_execution, Outcome, ok,
  err, Seen,
}
use amp_sentinel.Diagnosis.Engine.Messages.{on_message}
use amp_sentinel.Diagnosis.Engine.Steps.{
  commit_or_empty, active_lookup, check_tainted, open_log, close_log, run_option,
}

module _ (world : World) (codec : Codec) (patterns : Patterns)
    (unmarshal : Text → Option DiagnosisJson) (engine : Engine) where
  -- Step 2: the cached report is looked at under the lock, for the commit of the checkout.
  unfoldable pub reused :
      Report → RawEvent → Project → Text → Text → Option (List Text) → ℕ → Option Report
  reused cached event proj hash fingerprint none now = none
  reused cached event proj hash fingerprint (some flags) now =
      some (build_reused_report cached event proj.name hash fingerprint flags now)

  unfoldable pub try_reuse : Report → RawEvent → Project → Text → Action (Option Report)
  try_reuse cached event proj fingerprint = do
    perform (lock proj.key)
    prepared ← prepare world engine.base_dir proj
    hash ← (if is_some prepared then commit_or_empty world engine proj.key else pure [])
    perform (unlock proj.key)
    now ← gets world.now
    pure (
        if is_some prepared
        then reused cached event proj hash fingerprint
            (can_reuse (some cached) hash event.severity (pos_part engine.fp_config.min_score)) now
        else none)

  unfoldable pub try_found :
      Option (Option Report) → RawEvent → Project → Text → Action (Option Report)
  try_found none event proj fingerprint = pure none
  try_found (some none) event proj fingerprint = pure none
  try_found (some (some cached)) event proj fingerprint = try_reuse cached event proj fingerprint

  unfoldable pub search_reuse :
      FingerprintLookup → RawEvent → Project → Text → Action (Option Report)
  search_reuse lookup event proj fingerprint = do
    since ← gets (λ tr. before (world.now tr) engine.fp_config.window)
    found ← gets (λ tr. lookup tr proj.key fingerprint since)
    perform (find_report proj.key fingerprint since)
    try_found found event proj fingerprint

  unfoldable pub fingerprint_of : RawEvent → Project → Text
  fingerprint_of event proj =
      if is_some (active_lookup world engine)
      then compute_diagnosis_fingerprint codec patterns proj.key event.payload proj.dedup.fields
          engine.fp_config.default_dedup_fields
      else []

  unfoldable pub look_for_reuse :
      Option FingerprintLookup → RawEvent → Project → Action (Option Report)
  look_for_reuse none event proj = pure none
  look_for_reuse (some lookup) event proj =
      search_reuse lookup event proj (fingerprint_of event proj)

  -- Step 7: the parsed answer with the result of the verification of its locations.
  unfoldable pub fix_answer : Option DiagnosisJson → Action (Option DiagnosisJson)
  fix_answer (some d) = pure (some d)
  fix_answer none = if engine.json_fixer_enabled then run_json_fixer world unmarshal else pure none

  unfoldable pub score_answer :
      Files → FilePath → Option DiagnosisJson → Option (DiagnosisJson × QualityScore)
  score_answer files src_dir none = none
  score_answer files src_dir (some d) =
      let (score, flags) = verify_code_locations files (path_text src_dir) d.code_locations in
      some (d, assess d score flags)

  unfoldable pub read_answer :
      ExecuteResult → FilePath → Action (Option (DiagnosisJson × QualityScore))
  read_answer result src_dir =
      if engine.structured_output && not result.is_error
      then (do
        d ← fix_answer (parse_diagnosis_json unmarshal result.result)
        files ← gets world.files
        pure (score_answer files src_dir d))
      else pure none

  -- Step 5: the run of the agent in the checkout.
  unfoldable pub run_in_checkout :
      RawEvent → Project → FilePath → Action (Option ExecuteError × ExecuteResult × Seen)
  run_in_checkout event proj src_dir = do
    log ← open_log world engine event proj
    let opt = run_option world engine proj event src_dir
    proc ← gets world.process
    perform (run_agent opt.work_dir opt.permissions)
    let ran =
        execute (on_message patterns.to_lower proj.skills (is_some log)) proc opt
          (record { skills = []; session = [] })
    close_log world engine log ran.2
    pure ran

  -- Steps 6 to 10.
  unfoldable pub judge :
      RawEvent → Project → Text → Text → FilePath → ExecuteResult → Seen → Action Outcome
  judge event proj fingerprint hash src_dir result seen = do
    tainted ← check_tainted world engine proj.key
    answer ← read_answer result src_dir
    perform (unlock proj.key)
    now ← gets world.now
    pure (
        ok (
          build_report patterns.to_lower
            (record {
              incident_id = event.id;
              project_key = proj.key;
              project_name = proj.name;
              result = result;
              skills_used = seen.skills;
              tainted = tainted;
              fingerprint = fingerprint;
              commit_hash = hash;
              prompt_version = engine.prompt_version;
              structured_output = engine.structured_output;
              now = now;
            })
            answer))

  unfoldable pub judge_run :
      RawEvent
      → Project
      → Text
      → Text
      → FilePath
      → Option ExecuteError × ExecuteResult × Seen
      → Action Outcome
  judge_run event proj fingerprint hash src_dir (some e, result, seen) = do
    perform (unlock proj.key)
    pure (err (amp_execution e))
  judge_run event proj fingerprint hash src_dir (none, result, seen) =
      judge event proj fingerprint hash src_dir result seen

  unfoldable pub diagnose_source : Option FilePath → RawEvent → Project → Text → Action Outcome
  diagnose_source none event proj fingerprint = do
    perform (unlock proj.key)
    pure (err source_prepare)
  diagnose_source (some src_dir) event proj fingerprint = do
    hash ← commit_or_empty world engine proj.key
    ran ← run_in_checkout event proj src_dir
    judge_run event proj fingerprint hash src_dir ran

  -- Steps 3 to 10.
  unfoldable pub diagnose_anew : RawEvent → Project → Text → Action Outcome
  diagnose_anew event proj fingerprint = do
    perform (lock proj.key)
    prepared ← prepare world engine.base_dir proj
    diagnose_source prepared event proj fingerprint

  unfoldable pub unless_reused : Option Report → RawEvent → Project → Action Outcome
  unless_reused (some r) event proj = pure (ok r)
  unless_reused none event proj = diagnose_anew event proj (fingerprint_of event proj)

  unfoldable pub diagnose_project : Option Project → RawEvent → Action Outcome
  diagnose_project none event = pure (err project_lookup)
  diagnose_project (some proj) event = do
    reuse ← look_for_reuse (active_lookup world engine) event proj
    unless_reused reuse event proj

  unfoldable pub diagnose : RawEvent → Action Outcome
  diagnose event = diagnose_project (lookup_project engine.registry event.project_key) event
