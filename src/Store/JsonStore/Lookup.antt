-- ===== src/Store/JsonStore/Lookup.antt =====
-- store/json.go: what is read back after CreateEvent, UpdateEvent and SaveReport.
use amp_sentinel.Prelude.{
  ◌≡◌, refl, inl, inr, not, ◌&&◌, none, some, if◌then◌else◌, Bool-cases, is_some,
}
use amp_sentinel.Prelude.Text.{Text, text_eq}
use amp_sentinel.Store.Records.{Event, DiagnosisTask, DiagnosisReport}
use amp_sentinel.Store.Table.{
  find_record, put_record, find_record-put_record, IsDistinct, put_record-IsDistinct,
}
use amp_sentinel.Store.JsonStore.{
  JsonData, event_key, task_key, report_key, already_exists, not_found, get_event, create_event,
  update_event, create_task, update_task, save_report,
}

-- CreateEvent refuses an event whose id is there, with an error and no change; any other it stores, and reading its id
-- gives it back, while every other id reads as before.
pub create_event-get_event :
    (d : JsonData) (e : Event) (id : Text)
    → ((create_event d e).1
        ≡ (if is_some (get_event d e.id) then some (already_exists e.id) else none))
      × (get_event (create_event d e).0 id ≡ (
          if not (is_some (get_event d e.id)) && text_eq e.id id then some e else get_event d id))
unfolding create_event get_event
create_event-get_event d e id = elim (Bool-cases (is_some (find_record event_key d.events e.id))) [
  | inl b ↦ rw b (refl, refl)
  | inr b ↦ rw b (refl, find_record-put_record event_key d.events e id)
]

-- UpdateEvent stores an event whose id is there, and reading its id gives it back, while every other id reads as
-- before; any other event it refuses, with an error and no change.
pub update_event-get_event :
    (d : JsonData) (e : Event) (id : Text)
    → ((update_event d e).1 ≡ (if is_some (get_event d e.id) then none else some (not_found e.id)))
      × (get_event (update_event d e).0 id
          ≡ (if is_some (get_event d e.id) && text_eq e.id id then some e else get_event d id))
unfolding update_event get_event
update_event-get_event d e id = elim (Bool-cases (is_some (find_record event_key d.events e.id))) [
  | inl b ↦ rw b (refl, find_record-put_record event_key d.events e id)
  | inr b ↦ rw b (refl, refl)
]

-- The tables behave as maps: no id stands twice in one.
pub record IsConsistentData (d : JsonData) : Type 0 where
  pub events_distinct : IsDistinct event_key d.events
  pub tasks_distinct : IsDistinct task_key d.tasks
  pub reports_distinct : IsDistinct report_key d.reports

-- No operation that writes makes an id stand twice in a table.
pub writes-IsConsistentData :
    (d : JsonData) (e : Event) (t : DiagnosisTask) (r : DiagnosisReport)
    → IsConsistentData d
    → IsConsistentData (create_event d e).0
      × IsConsistentData (update_event d e).0
      × IsConsistentData (create_task d t).0
      × IsConsistentData (update_task d t).0
      × IsConsistentData (save_report d r)
unfolding create_event update_event create_task update_task save_report
writes-IsConsistentData d e t r v =
    let new_event : IsConsistentData (record d { events = put_record event_key d.events e }) =
      record {
        events_distinct = put_record-IsDistinct event_key d.events e v.events_distinct;
        tasks_distinct = v.tasks_distinct;
        reports_distinct = v.reports_distinct;
      } in
    let new_task : IsConsistentData (record d { tasks = put_record task_key d.tasks t }) = record {
      events_distinct = v.events_distinct;
      tasks_distinct = put_record-IsDistinct task_key d.tasks t v.tasks_distinct;
      reports_distinct = v.reports_distinct;
    } in
    (
      elim (Bool-cases (is_some (find_record event_key d.events e.id))) [
        | inl b ↦ rw b v
        | inr b ↦ rw b new_event
      ],
      elim (Bool-cases (is_some (find_record event_key d.events e.id))) [
        | inl b ↦ rw b new_event
        | inr b ↦ rw b v
      ],
      elim (Bool-cases (is_some (find_record task_key d.tasks t.id))) [
        | inl b ↦ rw b v
        | inr b ↦ rw b new_task
      ],
      elim (Bool-cases (is_some (find_record task_key d.tasks t.id))) [
        | inl b ↦ rw b new_task
        | inr b ↦ rw b v
      ],
      record {
        events_distinct = v.events_distinct;
        tasks_distinct = v.tasks_distinct;
        reports_distinct = put_record-IsDistinct report_key d.reports r v.reports_distinct;
      },
    )
