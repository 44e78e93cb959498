-- ===== src/Main/Task.antt =====
-- main.go, diagnoseFn: one attempt at a task, with what it writes to the store.
use amp_sentinel.Prelude.{ℕ, Bool, true, [], Option, none, some, is_some, if◌then◌else◌}
use amp_sentinel.Prelude.Int.{pos}
use amp_sentinel.Prelude.Text.{Text, utf8}
use amp_sentinel.Intake.Event.{RawEvent, severity_priority}
use amp_sentinel.Intake.Fingerprint.{Codec}
use amp_sentinel.Effects.{World, Trace}
use amp_sentinel.Project.Registry.{Project, lookup_project}
use amp_sentinel.Diagnosis.Report.{Report, UsageInfo}
use amp_sentinel.Diagnosis.Payload.{Patterns}
use amp_sentinel.Diagnosis.Engine.{Engine, DiagnoseError, Outcome, ok, err}
use amp_sentinel.Diagnosis.Engine.Diagnose.{diagnose}
use amp_sentinel.Store.Records.{Event, DiagnosisTask}
use amp_sentinel.Store.JsonStore.{
  JsonData, get_event, update_event, create_task, update_task, save_report,
}
use amp_sentinel.Main.Reports.{JsonLibrary, to_store, store_lookup}
pub mod Written
pub mod Settled
pub mod Sound

unfoldable pub running : Text
unfolding utf8
running = utf8 "running"

unfoldable pub completed : Text
unfolding utf8
completed = utf8 "completed"

unfoldable pub failed : Text
unfolding utf8
failed = utf8 "failed"

unfoldable pub new_task : Text → RawEvent → ℕ → DiagnosisTask
new_task task_id event now = record {
  id = task_id;
  event_id = event.id;
  project_key = event.project_key;
  status = running;
  priority = pos (severity_priority event.severity);
  session_id = [];
  num_turns = 0;
  duration_ms = 0;
  input_tokens = 0;
  output_tokens = 0;
  error = [];
  retry_count = 0;
  created_at = now;
  started_at = some now;
  finished_at = none;
}

-- CreateTask, and UpdateTask if that fails.
unfoldable pub store_task : JsonData → DiagnosisTask → JsonData
store_task d t =
    let (created, error) = create_task d t in if is_some error then (update_task d t).0 else created

-- The status of the event, if the store has it.
unfoldable pub mark_found : Option Event → Text → JsonData → JsonData
mark_found none status d = d
mark_found (some e) status d = (update_event d (record e { status = status })).0

unfoldable pub mark_event : Text → Text → JsonData → JsonData
mark_event id status d = mark_found (get_event d id) status d

unfoldable pub failed_task : DiagnosisTask → Text → ℕ → DiagnosisTask
failed_task t error now = record t { status = failed; error = error; finished_at = some now }

unfoldable pub input_of : Option UsageInfo → ℕ
input_of none = 0
input_of (some u) = u.input_tokens

unfoldable pub output_of : Option UsageInfo → ℕ
output_of none = 0
output_of (some u) = u.output_tokens

unfoldable pub completed_task : DiagnosisTask → Report → ℕ → DiagnosisTask
completed_task t r now = record t {
  status = completed;
  session_id = r.session_id;
  duration_ms = r.duration_ms;
  num_turns = r.num_turns;
  finished_at = some now;
  input_tokens = input_of r.usage;
  output_tokens = output_of r.usage;
}

-- `error_text` is Error() of the engine's error.
unfoldable pub finish_failed :
    (DiagnoseError → Text) → DiagnoseError → DiagnosisTask → RawEvent → ℕ → JsonData → JsonData
finish_failed error_text e t event now d =
    mark_event event.id failed (update_task d (failed_task t (error_text e) now)).0

unfoldable pub finish_completed :
    JsonLibrary → Report → DiagnosisTask → RawEvent → ℕ → JsonData → JsonData
finish_completed json r t event now d =
    (update_task (mark_event event.id completed (save_report d (to_store json t.id r)))
      (completed_task t r now)).0

-- `notify` says whether the notifier sent the report.
unfoldable pub notify_project : (Project → Report → Bool) → Option Project → Report → Report
notify_project notify none r = r
notify_project notify (some p) r = record r { notified = if notify p r then true else r.notified }

-- The engine of main: it searches the store that it stands over.
unfoldable pub over_store : JsonLibrary → JsonData → Engine → Engine
over_store json d engine = record engine {
  fingerprint_lookup = if engine.fp_config.enabled then some (store_lookup json d) else none;
}

module _ (world : World) (codec : Codec) (patterns : Patterns) (json : JsonLibrary)
    (engine : Engine) (error_text : DiagnoseError → Text)
    (notify : RawEvent → Project → Report → Bool) where
  unfoldable pub finish :
      Outcome → DiagnosisTask → RawEvent → ℕ → JsonData → JsonData × Option DiagnoseError
  finish (err e) t event now d = (finish_failed error_text e t event now d, some e)
  finish (ok r) t event now d =
      let sent =
        notify_project (notify event) (lookup_project engine.registry event.project_key) r in
      (finish_completed json sent t event now d, none)

  unfoldable pub outcome_of : JsonData → RawEvent → Trace → Outcome
  outcome_of d event tr =
      (diagnose world codec patterns json.unmarshal_diagnosis (over_store json d engine) event tr).0

  -- An attempt that starts and ends at these times.
  unfoldable pub run_task :
      Text → RawEvent → ℕ → ℕ → Trace → JsonData → JsonData × Option DiagnoseError
  run_task task_id event start end tr d =
      let t = new_task task_id event start in
      let begun = store_task d t in finish (outcome_of begun event tr) t event end begun
