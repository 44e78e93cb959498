-- ===== src/Tests/Engineering.antt =====
-- Examples for the engine and for main: one project, a world in which every command succeeds, and one event.
use amp_sentinel.Prelude.{◌≡◌, ◌≢◌, ◌↔◌, arith, refl, true, false, [], ◌∷◌, Option, none, some}
use amp_sentinel.Prelude.Int.{pos}
use amp_sentinel.Prelude.Text.{Text, utf8, utf8_encode, text_eq}
use amp_sentinel.Store.Table.{find_record}
use amp_sentinel.Intake.Event.{RawEvent}
use amp_sentinel.Intake.Fingerprint.{Codec}
use amp_sentinel.Amp.Types.{StreamMessage}
use amp_sentinel.Amp.Client.{
  Process, ExecuteError, execute, needs_settings, finish, read_lines, start_of, handle_message,
  empty_result, with_tools,
}
use amp_sentinel.Effects.{World, Trace, lock}
use amp_sentinel.Effects.Guarded.{held}
use amp_sentinel.Project.Registry.{Project, lookup_project}
use amp_sentinel.Project.Sources.{repo_dir, prepare, git_pull, run_git, has_changes}
use amp_sentinel.Diagnosis.Paths.{FilePath}
use amp_sentinel.Diagnosis.Types.{DiagnosisJson}
use amp_sentinel.Diagnosis.Report.{Report}
use amp_sentinel.Diagnosis.Payload.{Patterns}
use amp_sentinel.Diagnosis.Engine.{
  Engine, Outcome, ok, err, source_prepare, amp_execution, FingerprintLookup,
}
use amp_sentinel.Diagnosis.Engine.Diagnose.{
  diagnose, diagnose_project, unless_reused, look_for_reuse, diagnose_anew, diagnose_source,
  judge_run, run_in_checkout, judge,
}
use amp_sentinel.Diagnosis.Engine.Steps.{active_lookup, run_option}
use amp_sentinel.Diagnosis.Engine.Messages.{on_message}
use amp_sentinel.Amp.Permission.{read_only_permissions}
use amp_sentinel.Diagnosis.Engine.Guarded.{diagnose-held}
use amp_sentinel.Diagnosis.Engine.Reports.{IsSoundReport}
use amp_sentinel.Diagnosis.Engine.Sound.{diagnose-IsSoundReport}
use amp_sentinel.Diagnosis.Engine.Failures.{run_after, diagnose_anew_errors, judge-tainted}
use amp_sentinel.Diagnosis.Assembly.{zero_score}

abbrev pub constant : {A : Type 0} → A → Text → A
constant a s = a

abbrev pub same : Text → Text
same s = s

abbrev pub codec : Codec
codec = record {
  format_g = λ n. [];
  sha256 = λ s. [];
  marshal = λ v. [];
  unmarshal = λ s. none;
  opens_object = λ s. false;
  tokens = λ s. [];
}

abbrev pub patterns : Patterns
patterns = record {
  timestamps = same;
  uuids = same;
  addresses = same;
  numbers = same;
  to_lower = same;
}

abbrev pub answer : StreamMessage
answer = record {
  type = utf8 "result";
  subtype = [];
  session_id = [];
  message = none;
  is_error = false;
  result = b'x' ∷ [];
  error = [];
  duration_ms = 5;
  num_turns = 1;
  usage = none;
}

abbrev pub process : Process
process = record {
  settings_fails = false;
  pipe_fails = false;
  start_fails = false;
  lines = some answer ∷ [];
  scan_fails = false;
  exit_fails = false;
}

-- Every git command succeeds and prints nothing.
abbrev pub world : World
world = record {
  git_output = λ tr dir args. some [];
  clones = λ tr args. true;
  removes = λ tr dir. true;
  is_there = λ tr dir. true;
  process = λ tr. process;
  files = λ tr. record { stat = λ p. none; open_scan = λ p. none };
  opens_log = λ tr name. true;
  now = λ tr. 7;
}

abbrev pub project : Project
project = record {
  key = b'p' ∷ [];
  name = b'P' ∷ [];
  repo_url = [];
  branch = b'm' ∷ [];
  language = [];
  source_root = b'.' ∷ [];
  skills = [];
  owners = [];
  feishu_webhook = [];
  dedup = record { fields = []; window = [] };
}

abbrev pub engine_with : Option FingerprintLookup → Engine
engine_with lookup = record {
  base_dir = b'd' ∷ [];
  registry = record { projects = project ∷ [] };
  skill_mgr = none;
  mode = [];
  session_dir = b's' ∷ [];
  structured_output = true;
  json_fixer_enabled = true;
  prompt_version = [];
  fingerprint_lookup = lookup;
  fp_config = record {
    enabled = true;
    window = pos 5;
    min_score = pos 80;
    default_dedup_fields = [];
  };
}

abbrev pub engine : Engine
engine = engine_with none

abbrev pub event : RawEvent
event = record {
  id = b'e' ∷ [];
  project_key = b'p' ∷ [];
  payload = [];
  source = [];
  severity = [];
  title = [];
  received_at = 1;
}

abbrev unmarshal : Text → Option DiagnosisJson
unmarshal s = none

known : lookup_project engine.registry event.project_key ≡ some project
unfolding lookup_project find_record text_eq
known = refl

diagnose-held_example :
    held project.key
      (repo_dir engine.base_dir project.key)
      (diagnose world codec patterns unmarshal engine event []).1
    ≡ some false
unfolding held
diagnose-held_example =
    diagnose-held world codec patterns unmarshal engine project event [] known refl

abbrev pub no_report : Report
no_report = record {
  id = [];
  task_id = [];
  incident_id = [];
  project_key = [];
  project_name = [];
  summary = [];
  raw_result = [];
  has_issue = false;
  confidence = [];
  session_id = [];
  duration_ms = 0;
  num_turns = 0;
  tools_used = [];
  skills_used = [];
  tainted = false;
  notified = false;
  diagnosed_at = 0;
  usage = none;
  structured_result = none;
  quality_score = zero_score;
  original_confidence = pos 0;
  final_confidence = pos 0;
  final_conf_label = [];
  fingerprint = [];
  commit_hash = [];
  reused_from_id = [];
  prompt_version = [];
}

abbrev pub report_of : Outcome → Report
report_of (ok r) = r
report_of (err e) = no_report

abbrev given : Report
given = report_of (diagnose world codec patterns unmarshal engine event []).0

gives : (diagnose world codec patterns unmarshal engine event []).0 ≡ ok given
unfolding diagnose diagnose_project lookup_project find_record text_eq unless_reused look_for_reuse
    active_lookup diagnose_anew diagnose_source prepare git_pull run_git judge_run run_in_checkout
    execute needs_settings read_only_permissions finish read_lines start_of on_message
    handle_message run_option empty_result utf8 utf8_encode judge with_tools
gives = refl

none_is_not : {l : FingerprintLookup} → none ≢ some l
none_is_not e = ground (arith, e)

diagnose-IsSoundReport_example : IsSoundReport given
diagnose-IsSoundReport_example =
    diagnose-IsSoundReport world codec patterns unmarshal engine event []
      (λ lookup found. absurd (none_is_not found)) gives

diagnose_anew_errors_example :
    let out = (diagnose_anew world codec patterns unmarshal engine event project [] []).0 in
    let (prepared, ready) = prepare world engine.base_dir project (lock project.key ∷ []) in
    ((out ≡ err source_prepare) ↔ (prepared ≡ none))
    × ((e : ExecuteError)
        → (out ≡ err (amp_execution e)) ↔ (
            (src : FilePath) × (prepared ≡ some src)
            × (run_after world codec patterns unmarshal engine event project src ready ≡ some e)))
diagnose_anew_errors_example =
    diagnose_anew_errors world codec patterns unmarshal engine event project [] []

abbrev source : FilePath
source = record { rooted = false; names = [] }

abbrev judged : Outcome × Trace
judged =
    judge world codec patterns unmarshal engine event project [] [] source
      (record {
        session_id = [];
        result = [];
        error = [];
        is_error = false;
        duration_ms = 0;
        num_turns = 0;
        usage = none;
        tools_used = [];
      })
      (record { skills = []; session = [] }) []

judged_ok : judged.0 ≡ ok (report_of judged.0)
unfolding judge
judged_ok = refl

judge-tainted_example :
    ((report_of judged.0).tainted ≡ false)
    ↔ ((has_changes world engine.base_dir project.key []).0 ≡ some false)
judge-tainted_example =
    judge-tainted world codec patterns unmarshal engine event project [] [] source _ _ [] _
      judged_ok
