-- ===== src/Main/Task/Written.antt =====
-- main.go, diagnoseFn: what its writes leave of each table of the store.
use amp_sentinel.Prelude.{
  ℕ, ◌≡◌, refl, sym, ap, ◌∙◌, inl, inr, true, ◌&&◌, List, [], ◌∷◌, ◌++◌, Option, none, some,
  is_some, arith, Bool-cases, Option-cases, if◌then◌else◌,
}
use amp_sentinel.Prelude.Text.{Text, utf8, text_eq, text_eq_iff, text_eq_refl}
use amp_sentinel.Intake.Event.{RawEvent}
use amp_sentinel.Diagnosis.Report.{Report}
use amp_sentinel.Diagnosis.Engine.{DiagnoseError}
use amp_sentinel.Store.Records.{Event, DiagnosisTask}
use amp_sentinel.Store.Table.{find_record, put_record, find_record-put_record}
use amp_sentinel.Store.JsonStore.{
  JsonData, event_key, task_key, report_key, get_event, update_event, get_task, create_task,
  update_task, save_report,
}
use amp_sentinel.Store.JsonStore.Lookup.{update_event-get_event}
use amp_sentinel.Main.Reports.{JsonLibrary, to_store}
use amp_sentinel.Main.Task.{
  completed, failed, store_task, mark_found, mark_event, failed_task, completed_task, finish_failed,
  finish_completed,
}

some_same : {A : Type 0} {x y : A} → some x ≡ some y → x ≡ y
some_same e = ground (arith, e)

find_record-key :
    {A : Type 0} (key : A → Text) (xs : List A) (k : Text) {x : A}
    → find_record key xs k ≡ some x
    → key x ≡ k
unfolding find_record
find_record-key key [] k h = absurd (ground (arith, h))
find_record-key key (y ∷ ys) k {x} h = elim (Bool-cases (text_eq (key y) k)) [
  | inl e ↦
      let same : y ≡ x = some_same (rw e at h) in ap key (sym same) ∙ (text_eq_iff (key y) k).0 e
  | inr e ↦ find_record-key key ys k (rw e at h)
]

-- What an update leaves of a task that is there.
update_task-get_task :
    (d : JsonData) (t : DiagnosisTask)
    → is_some (get_task d t.id) ≡ true
    → get_task (update_task d t).0 t.id ≡ some t
unfolding update_task get_task
update_task-get_task d t h =
    rw h (find_record-put_record task_key d.tasks t t.id ∙ rw (text_eq_refl t.id) refl)

pub store_task-get_task :
    (d : JsonData) (t : DiagnosisTask) → get_task (store_task d t) t.id ≡ some t
unfolding store_task create_task update_task get_task
store_task-get_task d t = elim (Bool-cases (is_some (find_record task_key d.tasks t.id))) [
  | inl e ↦ rw e (find_record-put_record task_key d.tasks t t.id ∙ rw (text_eq_refl t.id) refl)
  | inr e ↦ rw e (find_record-put_record task_key d.tasks t t.id ∙ rw (text_eq_refl t.id) refl)
]

update_event-others :
    (d : JsonData) (e : Event)
    → ((update_event d e).0.tasks ≡ d.tasks) × ((update_event d e).0.reports ≡ d.reports)
unfolding update_event
update_event-others d e = elim (Bool-cases (is_some (find_record event_key d.events e.id))) [
  | inl b ↦ rw b (refl, refl)
  | inr b ↦ rw b (refl, refl)
]

mark_found-others :
    (o : Option Event) (status : Text) (d : JsonData)
    → ((mark_found o status d).tasks ≡ d.tasks) × ((mark_found o status d).reports ≡ d.reports)
unfolding mark_found
mark_found-others none status d = (refl, refl)
mark_found-others (some e) status d = update_event-others d (record e { status = status })

mark_event-others :
    (id status : Text) (d : JsonData)
    → ((mark_event id status d).tasks ≡ d.tasks) × ((mark_event id status d).reports ≡ d.reports)
unfolding mark_event
mark_event-others id status d = mark_found-others (get_event d id) status d

-- An event, if there is one, with a new status.
abbrev pub marked : Text → Option Event → Option Event
marked status none = none
marked status (some e) = some (record e { status = status })

-- A mark changes the status of its event alone.
pub mark_event-get_event :
    (id status : Text) (d : JsonData) (k : Text)
    → get_event (mark_event id status d) k
      ≡ (if text_eq id k then marked status (get_event d k) else get_event d k)
unfolding mark_event mark_found get_event
mark_event-get_event id status d k = elim (Option-cases (get_event d id)) [
  | inl none_there ↦ elim (Bool-cases (text_eq id k)) [
    | inl same ↦
        let gone : get_event d k ≡ none =
          ap (get_event d) (sym ((text_eq_iff id k).0 same)) ∙ none_there in
        rw (none_there, same, gone) refl
    | inr other ↦ rw (none_there, other) refl
  ]
  | inr (e, found) ↦
      let same : e.id ≡ id = find_record-key event_key d.events id found in
      let there : is_some (get_event d e.id) ≡ true =
        ap (λ k. is_some (get_event d k)) same ∙ ap is_some found in
      let new : Event = record e { status = status } in
      let at : (text_eq id k ≡ true) → get_event d k ≡ some e =
        λ h. ap (get_event d) (sym ((text_eq_iff id k).0 h)) ∙ found in
      ap (λ o. get_event (mark_found o status d) k) found
      ∙ (update_event-get_event d new k).1
      ∙ ap (λ b. if b && text_eq e.id k then some new else get_event d k) there
      ∙ ap (λ j. if text_eq j k then some new else get_event d k) same
      ∙ chosen id status d e k at
]
  where
    chosen :
        (id status : Text) (d : JsonData) (e : Event) (k : Text)
        → ((text_eq id k ≡ true) → get_event d k ≡ some e)
        → (if text_eq id k then some (record e { status = status }) else get_event d k)
          ≡ (if text_eq id k then marked status (get_event d k) else get_event d k)
    chosen id status d e k at = elim (Bool-cases (text_eq id k)) [
      | inl h ↦ let found = at h in rw (h, found) refl
      | inr h ↦ rw h refl
    ]

module _ (json : JsonLibrary) (t : DiagnosisTask) (event : RawEvent) (now : ℕ) (d : JsonData)
    (there : is_some (get_task d t.id) ≡ true) where
  pub failed-settles :
      (error_text : DiagnoseError → Text) (e : DiagnoseError)
      → get_task (finish_failed error_text e t event now d) t.id
        ≡ some (failed_task t (error_text e) now)
  unfolding finish_failed get_task failed_task
  failed-settles error_text e =
      ap (λ ts. find_record task_key ts t.id) (mark_event-others event.id failed _).0
      ∙ update_task-get_task d (failed_task t (error_text e) now) there

  pub completed-settles :
      (r : Report)
      → get_task (finish_completed json r t event now d) t.id ≡ some (completed_task t r now)
  unfolding finish_completed completed_task save_report get_task
  completed-settles r =
      let saved = save_report d (to_store json t.id r) in
      let marked = mark_event event.id completed saved in
      update_task-get_task marked (completed_task t r now) (
        ap (λ ts. is_some (find_record task_key ts t.id))
          (mark_event-others event.id completed saved).0
        ∙ there)

update_task-others :
    (d : JsonData) (t : DiagnosisTask)
    → ((update_task d t).0.events ≡ d.events) × ((update_task d t).0.reports ≡ d.reports)
unfolding update_task
update_task-others d t = elim (Bool-cases (is_some (find_record task_key d.tasks t.id))) [
  | inl b ↦ rw b (refl, refl)
  | inr b ↦ rw b (refl, refl)
]

pub store_task-others :
    (d : JsonData) (t : DiagnosisTask)
    → ((store_task d t).events ≡ d.events) × ((store_task d t).reports ≡ d.reports)
unfolding store_task create_task
store_task-others d t = elim (Bool-cases (is_some (find_record task_key d.tasks t.id))) [
  | inl b ↦ rw b (update_task-others d t)
  | inr b ↦ rw b (refl, refl)
]

module _ (json : JsonLibrary) (t : DiagnosisTask) (event : RawEvent) (now : ℕ) (d : JsonData)
    (k : Text) where
  abbrev IsMarked : Text → JsonData → Type 0
  IsMarked status out =
      get_event out k
      ≡ (if text_eq event.id k then marked status (get_event d k) else get_event d k)

  pub failed-event :
      (error_text : DiagnoseError → Text) (e : DiagnoseError)
      → IsMarked failed (finish_failed error_text e t event now d)
  unfolding finish_failed get_event
  failed-event error_text e =
      let after = (update_task d (failed_task t (error_text e) now)).0 in
      mark_event-get_event event.id failed after k
      ∙ ap
          (λ es.
            if text_eq event.id k
            then marked failed (find_record event_key es k)
            else find_record event_key es k)
          (update_task-others d (failed_task t (error_text e) now)).0

  pub completed-event : (r : Report) → IsMarked completed (finish_completed json r t event now d)
  unfolding finish_completed get_event save_report
  completed-event r =
      let saved = save_report d (to_store json t.id r) in
      let done = mark_event event.id completed saved in
      ap (λ es. find_record event_key es k) (update_task-others done (completed_task t r now)).0
      ∙ mark_event-get_event event.id completed saved k

-- The reports after a success.
pub completed-reports :
    (json : JsonLibrary) (r : Report) (t : DiagnosisTask) (event : RawEvent) (now : ℕ)
    (d : JsonData)
    → (finish_completed json r t event now d).reports
      ≡ put_record report_key d.reports (to_store json t.id r)
unfolding finish_completed save_report
completed-reports json r t event now d =
    let saved = save_report d (to_store json t.id r) in
    let marked = mark_event event.id completed saved in
    (update_task-others marked (completed_task t r now)).1
    ∙ (mark_event-others event.id completed saved).1

pub saved_there :
    (json : JsonLibrary) (d : JsonData) (task_id : Text) (r : Report)
    → find_record report_key
        (put_record report_key d.reports (to_store json task_id r))
        (utf8 "rpt-" ++ task_id)
      ≡ some (to_store json task_id r)
unfolding to_store
saved_there json d task_id r =
    find_record-put_record report_key d.reports (to_store json task_id r) (utf8 "rpt-" ++ task_id)
    ∙ rw (text_eq_refl (utf8 "rpt-" ++ task_id)) refl

pub failed-reports :
    (error_text : DiagnoseError → Text) (e : DiagnoseError) (t : DiagnosisTask) (event : RawEvent)
    (now : ℕ) (d : JsonData)
    → (finish_failed error_text e t event now d).reports ≡ d.reports
unfolding finish_failed
failed-reports error_text e t event now d =
    let after = (update_task d (failed_task t (error_text e) now)).0 in
    (mark_event-others event.id failed after).1
    ∙ (update_task-others d (failed_task t (error_text e) now)).1

pub stored_event :
    (d : JsonData) (t : DiagnosisTask) (k : Text) → get_event (store_task d t) k ≡ get_event d k
unfolding get_event
stored_event d t k = ap (λ es. find_record event_key es k) (store_task-others d t).0
