-- ===== src/Tests/Running.antt =====
-- Examples for an attempt at a task, the payload's environment, session names, skills and the log files.
use amp_sentinel.Prelude.{
  ℕ, suc, ◌+◌, ◌*◌, ◌<◌, ◌≤◌, ◌≡◌, refl, sym, ◌∙◌, Bool, true, false, [], ◌∷◌, Option, none, some,
  length, arith,
}
use amp_sentinel.Prelude.Int.{pos}
use amp_sentinel.Prelude.Text.{Text, utf8, utf8_encode, text_eq, text_eq_refl}
use mathlib.Core.Path.{subst}
use amp_sentinel.Amp.Client.{
  execute, needs_settings, finish, read_lines, start_of, handle_message, empty_result, with_tools,
}
use amp_sentinel.Amp.Permission.{read_only_permissions}
use amp_sentinel.Project.Sources.{prepare, git_pull, run_git}
use amp_sentinel.Diagnosis.Types.{flag_schema_invalid}
use amp_sentinel.Diagnosis.Parse.{parse_diagnosis_json, parse_and_validate}
use amp_sentinel.Diagnosis.Repair.{extract_json_object, take_object, from_brace}
use amp_sentinel.Diagnosis.Fixer.{run_json_fixer, fixed_answer, fixer_option}
use amp_sentinel.Diagnosis.Assembly.{zero_score, build_report, heuristic_report, blank_report}
use amp_sentinel.Diagnosis.Engine.Steps.{active_lookup, run_option}
use amp_sentinel.Diagnosis.Engine.Messages.{on_message}
use amp_sentinel.Diagnosis.Engine.Diagnose.{
  diagnose, diagnose_project, unless_reused, look_for_reuse, search_reuse, try_found, read_answer,
  fix_answer, score_answer, diagnose_anew, diagnose_source, judge_run, run_in_checkout, judge,
}
use amp_sentinel.Main.Reports.{
  store_lookup, restore_found, read_structured, structured_text, read_score, score_text, or_zero,
}
use amp_sentinel.Main.Task.{over_store}
use amp_sentinel.Store.JsonStore.{create_task, find_recent_report_by_fingerprint, best_of}
use amp_sentinel.Intake.Event.{RawEvent}
use amp_sentinel.Intake.Fingerprint.{
  Codec, compute_fingerprint, configured, event_hash, fast_or_slow, fast_fingerprint,
  slow_fingerprint, hash_bytes,
}
use amp_sentinel.Project.Registry.{Project}
use amp_sentinel.Diagnosis.Report.{Report}
use amp_sentinel.Diagnosis.Payload.{
  normalize_payload, dedup_of, extract_environment, compute_diagnosis_fingerprint,
}
use amp_sentinel.Diagnosis.Payload.Environments.{compute_diagnosis_fingerprint-environment}
use amp_sentinel.Diagnosis.Engine.{DiagnoseError, Outcome, ok}
use amp_sentinel.Store.Records.{Event}
use amp_sentinel.Store.Table.{find_record}
use amp_sentinel.Store.JsonStore.{JsonData}
use amp_sentinel.Main.Reports.{JsonLibrary, ReadsBack}
use amp_sentinel.Main.Task.{new_task, store_task, outcome_of, run_task}
use amp_sentinel.Main.Task.Settled.{IsSettled, run_task-IsSettled}
use amp_sentinel.Main.Task.Sound.{AllSound, run_task-AllSound}
use amp_sentinel.Skill.Types.{Skill}
use amp_sentinel.Skill.Manager.{Manager, mcp_config}
use amp_sentinel.Skill.Manager.Servers.{SkillsWritten, mcp_config_idem}
use amp_sentinel.Project.Registry.{new_registry, lookup_project}
use amp_sentinel.Project.Registry.Latest.{last_with, defaulted, lookup_project-new_registry}
use amp_sentinel.Logger.File.{
  Files, file_name, appends, FileCore, log_name, rotated_name, is_file, free_index,
  rotate_size_exceeded, log_line,
}
use amp_sentinel.Logger.File.Fresh.{free_index_least}
use amp_sentinel.Logger.File.Rotation.{moved_or_kept, rotate_size_exceeded-keeps}
use amp_sentinel.Logger.File.Bounded.{IsCurrent, log_line-bounded}
use amp_sentinel.Tests.Engineering.{codec, patterns, world, project, engine, event, report_of}

abbrev sum_of : Text → Text
sum_of s =
    0 ∷ 0 ∷ 0 ∷ 0 ∷ 0 ∷ 0 ∷ 0 ∷ 0 ∷ 0 ∷ 0 ∷ 0 ∷ 0 ∷ 0 ∷ 0 ∷ 0 ∷ 0 ∷ 0 ∷ 0 ∷ 0 ∷ 0 ∷ 0 ∷ 0 ∷ 0 ∷ 0
    ∷ 0 ∷ 0 ∷ 0 ∷ 0 ∷ 0 ∷ 0 ∷ 0 ∷ 0 ∷ []

abbrev sized : Codec
sized = record codec { sha256 = sum_of }

sum_is_32 : (b : Text) → length (sized.sha256 b) ≡ 32
sum_is_32 b = refl

ok_report : {r s : Report} → ok r ≡ ok s → r ≡ s
ok_report e = ground (arith, e)

abbrev pub json : JsonLibrary
json = record {
  marshal_diagnosis = λ d. [];
  unmarshal_diagnosis = λ s. none;
  marshal_score = λ q. some (b's' ∷ []);
  unmarshal_score = λ s. some (record zero_score { flags = flag_schema_invalid ∷ [] });
}

abbrev error_text : DiagnoseError → Text
error_text e = []

abbrev sends : RawEvent → Project → Report → Bool
sends e p r = true

abbrev stored_event : Event
stored_event = record {
  id = b'e' ∷ [];
  project_key = b'p' ∷ [];
  payload = [];
  source = [];
  severity = [];
  title = [];
  status = [];
  received_at = 1;
}

abbrev data_before : JsonData
data_before = record { events = stored_event ∷ []; tasks = []; reports = [] }

abbrev task_id : Text
task_id = b't' ∷ []

abbrev begun : JsonData
begun = store_task data_before (new_task task_id event 3)

abbrev outcome : Outcome
outcome = outcome_of world codec patterns json engine error_text sends begun event []

run_task-IsSettled_example :
    IsSettled world codec patterns json engine error_text sends task_id event 9 data_before outcome
      (run_task world codec patterns json engine error_text sends task_id event 3 9 [] data_before)
run_task-IsSettled_example =
    run_task-IsSettled world codec patterns json engine error_text sends task_id event 3 9 []
      data_before

gives : outcome ≡ ok (report_of outcome)
unfolding outcome_of over_store diagnose diagnose_project lookup_project find_record text_eq
    unless_reused look_for_reuse active_lookup search_reuse try_found store_lookup restore_found
    find_recent_report_by_fingerprint best_of store_task create_task new_task diagnose_anew
    diagnose_source prepare git_pull run_git judge_run run_in_checkout execute needs_settings
    read_only_permissions finish read_lines start_of on_message handle_message run_option
    empty_result utf8 utf8_encode judge with_tools
gives = refl

reads_back : ReadsBack json (report_of outcome)
unfolding outcome_of over_store diagnose diagnose_project lookup_project find_record text_eq
    unless_reused look_for_reuse active_lookup search_reuse try_found store_lookup restore_found
    find_recent_report_by_fingerprint best_of store_task create_task new_task diagnose_anew
    diagnose_source prepare git_pull run_git judge_run run_in_checkout execute needs_settings
    read_only_permissions finish read_lines start_of on_message handle_message run_option
    empty_result utf8 utf8_encode judge with_tools build_report read_structured read_answer
    structured_text score_answer fix_answer parse_diagnosis_json parse_and_validate
    extract_json_object take_object from_brace run_json_fixer fixed_answer fixer_option
    heuristic_report blank_report read_score score_text or_zero
reads_back = record { answer = refl; score = refl }

every_outcome : (r : Report) → outcome ≡ ok r → ReadsBack json r
every_outcome r e = subst (ReadsBack json) (ok_report (sym gives ∙ e)) reads_back

run_task-AllSound_example :
    AllSound json
      (run_task world codec patterns json engine error_text sends task_id event 3 9 []
        data_before).0.reports
run_task-AllSound_example =
    run_task-AllSound world codec patterns json engine error_text sends task_id event 3 9 []
      data_before tt every_outcome

same_environment :
    compute_diagnosis_fingerprint sized patterns (b'p' ∷ []) (b'x' ∷ []) [] []
    ≡ compute_diagnosis_fingerprint sized patterns (b'p' ∷ []) (b'y' ∷ []) [] []
unfolding compute_diagnosis_fingerprint normalize_payload extract_environment compute_fingerprint
    dedup_of configured event_hash fast_or_slow fast_fingerprint slow_fingerprint hash_bytes
same_environment = refl

compute_diagnosis_fingerprint-environment_example :
    (extract_environment sized patterns (b'x' ∷ [])
      ≡ extract_environment sized patterns (b'y' ∷ []))
    × (compute_fingerprint sized
          (b'p' ∷ [])
          (normalize_payload sized patterns (b'x' ∷ []))
          (dedup_of [])
          []
        ≡ compute_fingerprint sized
            (b'p' ∷ [])
            (normalize_payload sized patterns (b'y' ∷ []))
            (dedup_of [])
            [])
compute_diagnosis_fingerprint-environment_example =
    compute_diagnosis_fingerprint-environment sized sum_is_32 patterns (b'p' ∷ []) (b'x' ∷ [])
      (b'y' ∷ []) [] [] same_environment

lookup_project-new_registry_example :
    lookup_project (new_registry (project ∷ project ∷ [])) (b'p' ∷ [])
    ≡ defaulted (last_with (b'p' ∷ []) (project ∷ project ∷ []) none)
lookup_project-new_registry_example =
    lookup_project-new_registry (project ∷ project ∷ []) (b'p' ∷ [])

abbrev skilled : Manager
skilled = record { skills = []; dir = []; env = (b'k' ∷ [], b'v' ∷ []) ∷ [] }

abbrev a_skill : Skill
a_skill = record {
  name = b's' ∷ [];
  description = [];
  globs = [];
  dir = [];
  mcp_servers =
      (b'm' ∷ [], record { command = []; args = []; env = some []; url = []; headers = [] }) ∷ [];
  content = [];
}

mcp_config_idem_example :
    let (servers, after) = mcp_config skilled (a_skill ∷ []) in
    SkillsWritten skilled.env (a_skill ∷ []) after × (mcp_config skilled after ≡ (servers, after))
mcp_config_idem_example = mcp_config_idem skilled (a_skill ∷ [])

abbrev today : Text
today = utf8 "2024-01-02"

-- The day's file, and one that was moved aside before.
abbrev log_files : Files
log_files = (log_name today, 1048576) ∷ (rotated_name today 1, 1048580) ∷ []

free_index_least_example :
    (i : ℕ) × (free_index today log_files ≡ some i)
    × (1 ≤ i)
    × (is_file log_files (rotated_name today i) ≡ false)
    × ((j : ℕ) → 1 ≤ j → j < i → is_file log_files (rotated_name today j) ≡ true)
free_index_least_example = free_index_least today log_files

abbrev core : FileCore
core = record {
  max_size_mb = pos 1;
  max_age_days = pos 0;
  file = appends (log_name today);
  current_day = today;
  written = 1048576;
}

day_file : find_record file_name log_files (log_name today) ≡ some (log_name today, 1048576)
unfolding find_record
day_file = rw (text_eq_refl (log_name today)) refl

rotate_size_exceeded-keeps_example :
    (i : ℕ) × (is_file log_files (rotated_name today i) ≡ false)
    × ((s : Text)
        → find_record file_name (rotate_size_exceeded true true today core log_files).1 s
          ≡ moved_or_kept true today core log_files 1048576 day_file true i s)
rotate_size_exceeded-keeps_example =
    rotate_size_exceeded-keeps true today core log_files 1048576 day_file true

abbrev never : Text → Option Bool
never s = none

log_line-bounded_example :
    let (d, gs) = log_line never true true today 7 core log_files in
    IsCurrent today d gs × (d.written < suc 0 * 1024 * 1024 + 8)
log_line-bounded_example =
    log_line-bounded never true today 0 core log_files refl
      (record { this_day = refl; handle = refl; measured = day_file }) 8 7 (omega arith)
