-- ===== src/Api/Server/Retry.antt =====
-- api/server.go, handleRetry, with the functions of main.go that write the store: what a retry hands to the scheduler.
use amp_sentinel.Prelude.{
  ◌≡◌, ◌↔◌, refl, sym, ap, ◌∙◌, inl, inr, true, ◌&&◌, not, Option, none, some, is_some, arith,
  Bool-cases, if◌then◌else◌, Bool, false, ℕ,
}
use amp_sentinel.Prelude.Text.{Text, utf8, text_eq, text_eq_refl, text_eq_iff}
use amp_sentinel.Intake.Event.{RawEvent}
use amp_sentinel.Store.Records.{Event, DiagnosisTask}
use amp_sentinel.Store.JsonStore.{JsonData, get_event}
use amp_sentinel.Store.JsonStore.Lookup.{create_event-get_event}
use amp_sentinel.Effects.{World, Trace}
use amp_sentinel.Intake.Fingerprint.{Codec}
use amp_sentinel.Project.Registry.{Project, lookup_project}
use amp_sentinel.Diagnosis.Report.{Report}
use amp_sentinel.Diagnosis.Payload.{Patterns}
use amp_sentinel.Diagnosis.Engine.{Engine, DiagnoseError, Outcome, ok, err}
use amp_sentinel.Main.Reports.{JsonLibrary}
use amp_sentinel.Main.Task.{
  completed, failed, new_task, store_task, notify_project, finish, run_task,
}
use amp_sentinel.Main.Task.Written.{marked, failed-event, completed-event, stored_event}
use amp_sentinel.Main.Intake.{event_to_store, receive}
use amp_sentinel.Api.Messages.{Request, event_from_store, first_active}
use amp_sentinel.Api.Server.{
  Server, tasks_of_event, resubmitted, resubmit_unless, retry_found, handle_retry,
}

some_event : {a b : RawEvent} → some a ≡ some b → a ≡ b
some_event e = ground (arith, e)

some_old : {a b : Event} → some a ≡ some b → a ≡ b
some_old e = ground (arith, e)

module _ (s : Server) (r : Request) (id : Text) where
  resubmitted_hands : (e : RawEvent) (o : Option Text) → (resubmitted s id e o).1 ≡ some e
  unfolding resubmitted
  resubmitted_hands e none = refl
  resubmitted_hands e (some t) = refl

  unless_hands :
      (o : Option DiagnosisTask) (old : Event) (e : RawEvent)
      → ((resubmit_unless s o id old).1 ≡ some e) ↔ ((o ≡ none) × (event_from_store old ≡ e))
  unfolding resubmit_unless
  unless_hands (some t) old e = (λ h. absurd (ground (arith, h)), λ w. absurd (ground (arith, w.0)))
  unless_hands none old e =
      let hands = resubmitted_hands (event_from_store old) (s.submit (event_from_store old)) in
      (λ h. (refl, some_event (sym hands ∙ h)), λ w. hands ∙ ap some w.1)

  found_hands :
      (o : Option Event) (e : RawEvent)
      → ((retry_found s o id).1 ≡ some e) ↔ (
          (old : Event) × (o ≡ some old)
          × (first_active (tasks_of_event s id) ≡ none)
          × (event_from_store old ≡ e))
  unfolding retry_found
  found_hands none e = (λ h. absurd (ground (arith, h)), λ w. absurd (ground (arith, w.1)))
  found_hands (some old) e =
      let hands = unless_hands (first_active (tasks_of_event s id)) old e in
      (
        λ h. let (idle, same) = hands.0 h in (old, refl, idle, same),
        λ w. hands.1 (w.2, ap event_from_store (some_old w.1) ∙ w.3),
      )

  -- A retry hands an event to the scheduler exactly if it is a POST, the store has the event, and no task of the event's first 100 is
  -- pending, queued or running; it is then the stored event.
  pub handle_retry_iff :
      (e : RawEvent)
      → ((handle_retry s r id).1 ≡ some e) ↔ (
          (text_eq r.method (utf8 "POST") ≡ true)
          × ((old : Event) × (get_event s.store id ≡ some old)
              × (first_active (tasks_of_event s id) ≡ none)
              × (event_from_store old ≡ e)))
  unfolding handle_retry
  handle_retry_iff e = elim (Bool-cases (text_eq r.method (utf8 "POST"))) [
    | inl post ↦
        let hands = found_hands (get_event s.store id) e in
        rw post (λ h. (refl, hands.0 h), λ w. hands.1 w.1)
    | inr other ↦ rw other (λ h. absurd (ground (arith, h)), λ w. absurd (ground (arith, w.0)))
  ]

-- What happens to the store after an event is received: further events, and attempts at tasks. Nothing else writes it.
module _ (world : World) (codec : Codec) (patterns : Patterns) (json : JsonLibrary)
    (engine : Engine) (error_text : DiagnoseError → Text)
    (notify : RawEvent → Project → Report → Bool) where
  pub data History : JsonData → JsonData → Type 0 where
    unchanged : (d : JsonData) → History d d
    received :
        (d now : JsonData) (submit : RawEvent → Option Text) (e : RawEvent)
        → History d now
        → History d (receive submit e now).0
    attempted :
        (d now : JsonData) (task_id : Text) (e : RawEvent) (start end : ℕ) (tr : Trace)
        → History d now
        → History d
            (run_task world codec patterns json engine error_text notify task_id e start end tr
              now).0

  -- The store has an event of this id that is `e` but for its status.
  abbrev pub Holds : RawEvent → JsonData → Type 0
  Holds e d = (old : Event) × (get_event d e.id ≡ some old) × (event_from_store old ≡ e)

  received-Holds :
      (submit : RawEvent → Option Text) (new e : RawEvent) (d : JsonData)
      → Holds e d
      → Holds e (receive submit new d).0
  unfolding receive event_to_store
  received-Holds submit new e d (old, found, same) =
      (old, (create_event-get_event d (event_to_store new) e.id).1 ∙ kept, same)
    where
      kept :
          (if not (is_some (get_event d new.id)) && text_eq new.id e.id
            then some (event_to_store new)
            else get_event d e.id)
          ≡ some old
      kept = elim (Bool-cases (text_eq new.id e.id)) [
        | inl k ↦
            let there : is_some (get_event d new.id) ≡ true =
              ap (λ i. is_some (get_event d i)) ((text_eq_iff new.id e.id).0 k)
              ∙ ap is_some found in
            rw there found
        | inr k ↦ ground (arith, k, found)
      ]

  marked-Holds :
      (e : RawEvent) (status : Text) (b : Bool) (old : Event) (d : JsonData) (out : JsonData)
      → event_from_store old ≡ e
      → get_event d e.id ≡ some old
      → get_event out e.id ≡ (if b then marked status (get_event d e.id) else get_event d e.id)
      → Holds e out
  unfolding event_from_store
  marked-Holds e status true old d out same found h =
      (record old { status = status }, h ∙ ap (marked status) found, same)
  marked-Holds e status false old d out same found h = (old, h ∙ found, same)

  finished-Holds :
      (o : Outcome) (t : DiagnosisTask) (event e : RawEvent) (now : ℕ) (d : JsonData)
      → Holds e d
      → Holds e (finish world codec patterns json engine error_text notify o t event now d).0
  unfolding finish
  finished-Holds (err f) t event e now d (old, found, same) =
      marked-Holds e failed (text_eq event.id e.id) old d _ same found
        (failed-event json t event now d e.id error_text f)
  finished-Holds (ok r) t event e now d (old, found, same) =
      marked-Holds e completed (text_eq event.id e.id) old d _ same found (
        completed-event json t event now d e.id
          (notify_project (notify event) (lookup_project engine.registry event.project_key) r))

  attempted-Holds :
      (task_id : Text) (event e : RawEvent) (start end : ℕ) (tr : Trace) (d : JsonData)
      → Holds e d
      → Holds e
          (run_task world codec patterns json engine error_text notify task_id event start end tr
            d).0
  unfolding run_task
  attempted-Holds task_id event e start end tr d (old, found, same) =
      finished-Holds _ (new_task task_id event start) event e end
        (store_task d (new_task task_id event start))
        (old, stored_event d (new_task task_id event start) e.id ∙ found, same)

  History-Holds : {d now : JsonData} (e : RawEvent) → Holds e d → History d now → Holds e now
  History-Holds e h (unchanged d) = h
  History-Holds e h (received d now submit new past) =
      received-Holds submit new e now (History-Holds e h past)
  History-Holds e h (attempted d now task_id event start end tr past) =
      attempted-Holds task_id event e start end tr now (History-Holds e h past)

  new-Holds :
      (submit : RawEvent → Option Text) (e : RawEvent) (d : JsonData)
      → get_event d e.id ≡ none
      → Holds e (receive submit e d).0
  unfolding receive event_to_store event_from_store
  new-Holds submit e d new = (
    event_to_store e,
    (create_event-get_event d (event_to_store e) e.id).1 ∙ rw (new, text_eq_refl e.id) refl,
    refl,
  )

  -- If an accepted event was new to the store, then after any history of further events and of attempts at tasks, its own
  -- included, a POST to retry it, while none of its first 100 tasks is active, hands to the scheduler the event as it was
  -- received, whatever became of its submission.
  pub handle_retry-receive :
      (s : Server) (r : Request) (submit : RawEvent → Option Text) (e : RawEvent) (d : JsonData)
      → get_event d e.id ≡ none
      → History (receive submit e d).0 s.store
      → text_eq r.method (utf8 "POST") ≡ true
      → first_active (tasks_of_event s e.id) ≡ none
      → (handle_retry s r e.id).1 ≡ some e
  handle_retry-receive s r submit e d new past post idle =
      let (old, found, same) = History-Holds e (new-Holds submit e d new) past in
      (handle_retry_iff s r e.id e).1 (post, (old, found, idle, same))
