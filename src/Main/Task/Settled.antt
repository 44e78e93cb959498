-- ===== src/Main/Task/Settled.antt =====
-- main.go, diagnoseFn: the task, its event and its report after an attempt.
use amp_sentinel.Prelude.{
  ℕ, ◌≡◌, refl, ap, ◌∙◌, Bool, true, ◌++◌, Option, none, some, is_some, arith, if◌then◌else◌,
}
use amp_sentinel.Prelude.Text.{Text, utf8, text_eq, text_eq_refl}
use amp_sentinel.Intake.Event.{RawEvent}
use amp_sentinel.Intake.Fingerprint.{Codec}
use amp_sentinel.Effects.{World, Trace}
use amp_sentinel.Project.Registry.{Project, lookup_project}
use amp_sentinel.Diagnosis.Report.{Report}
use amp_sentinel.Diagnosis.Payload.{Patterns}
use amp_sentinel.Diagnosis.Engine.{Engine, DiagnoseError, Outcome, ok, err}
use amp_sentinel.Store.Records.{Event, DiagnosisTask}
use amp_sentinel.Store.Table.{find_record}
use amp_sentinel.Store.JsonStore.{JsonData, report_key, get_event, get_task}
use amp_sentinel.Main.Reports.{JsonLibrary, to_store}
use amp_sentinel.Main.Task.{
  completed, failed, new_task, store_task, failed_task, completed_task, notify_project, finish,
  outcome_of, run_task,
}
use amp_sentinel.Main.Task.Written.{
  store_task-get_task, marked, failed-settles, completed-settles, failed-event, completed-event,
  completed-reports, saved_there, stored_event,
}

-- The status that an attempt leaves its task and its event in, and the error that it returns.
abbrev pub status_after : Outcome → Text
status_after (ok r) = completed
status_after (err e) = failed

abbrev pub error_of : Outcome → Option DiagnoseError
error_of (ok r) = none
error_of (err e) = some e

module _ (world : World) (codec : Codec) (patterns : Patterns) (json : JsonLibrary)
    (engine : Engine) (error_text : DiagnoseError → Text)
    (notify : RawEvent → Project → Report → Bool) where
  -- The report as it is sent to the notifier and stored.
  abbrev pub sent : RawEvent → Report → Report
  sent event r = notify_project (notify event) (lookup_project engine.registry event.project_key) r

  -- What an attempt with this outcome that ended at `end` leaves of its task, its event and its report, and what it
  -- returns.
  pub record IsSettled (task_id : Text) (event : RawEvent) (end : ℕ) (before : JsonData)
      (o : Outcome) (out : JsonData × Option DiagnoseError) : Type 0 where
    pub returned : out.1 ≡ error_of o
    pub task : DiagnosisTask
    pub stored : get_task out.0 task_id ≡ some task
    pub task_status : task.status ≡ status_after o
    pub finished : task.finished_at ≡ some end
    pub event_status :
        get_event out.0 event.id ≡ marked (status_after o) (get_event before event.id)
    pub reported :
        (r : Report)
        → o ≡ ok r
        → find_record report_key out.0.reports (utf8 "rpt-" ++ task_id)
          ≡ some (to_store json task_id (sent event r))

  at_event :
      (event : RawEvent) (a b : Option Event) → (if text_eq event.id event.id then a else b) ≡ a
  at_event event a b = rw (text_eq_refl event.id) refl

  ok_report : {r s : Report} → ok r ≡ ok s → r ≡ s
  ok_report e = ground (arith, e)

  finish-IsSettled :
      (o : Outcome) (t : DiagnosisTask) (event : RawEvent) (now : ℕ) (d : JsonData)
      → is_some (get_task d t.id) ≡ true
      → IsSettled t.id event now d o
          (finish world codec patterns json engine error_text notify o t event now d)
  unfolding finish completed_task failed_task
  finish-IsSettled (err e) t event now d there = record {
    returned = refl;
    task = failed_task t (error_text e) now;
    stored = failed-settles json t event now d there error_text e;
    task_status = refl;
    finished = refl;
    event_status = failed-event json t event now d event.id error_text e ∙ at_event event _ _;
    reported = λ r h. absurd (ground (arith, h));
  }
  finish-IsSettled (ok r) t event now d there =
      let out = sent event r in
      record {
        returned = refl;
        task = completed_task t out now;
        stored = completed-settles json t event now d there out;
        task_status = refl;
        finished = refl;
        event_status = completed-event json t event now d event.id out ∙ at_event event _ _;
        reported = λ s h.
            ap (λ rs. find_record report_key rs (utf8 "rpt-" ++ t.id))
              (completed-reports json out t event now d)
            ∙ saved_there json d t.id out
            ∙ ap (λ x. some (to_store json t.id (sent event x))) (ok_report h);
      }

  -- However the engine ends, and whatever the store had of the task before: the task is then in the store with the time of
  -- the end, completed if the engine gave a report and failed if it gave an error, which is what the attempt returns; the
  -- event, if the store has it, has the same status and is otherwise as it was; and the report that the engine gave is in
  -- the store, with the mark of the notifier.
  pub run_task-IsSettled :
      (task_id : Text) (event : RawEvent) (start end : ℕ) (tr : Trace) (d : JsonData)
      → IsSettled task_id event end d
          (outcome_of world codec patterns json engine error_text notify
            (store_task d (new_task task_id event start))
            event
            tr)
          (run_task world codec patterns json engine error_text notify task_id event start end tr d)
  unfolding run_task new_task
  run_task-IsSettled task_id event start end tr d =
      let t = new_task task_id event start in
      let settled =
        finish-IsSettled
          (outcome_of world codec patterns json engine error_text notify (store_task d t) event tr)
          t event end (store_task d t) (ap is_some (store_task-get_task d t)) in
      record {
        returned = settled.returned;
        task = settled.task;
        stored = settled.stored;
        task_status = settled.task_status;
        finished = settled.finished;
        event_status = settled.event_status ∙ ap (marked _) (stored_event d t event.id);
        reported = settled.reported;
      }
