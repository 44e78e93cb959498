-- ===== src/Tests/Serving.antt =====
-- Examples for the admin API.
use amp_sentinel.Prelude.{Bool, ◌≡◌, refl, true, [], ◌∷◌, Option, none, some, if◌then◌else◌}
use amp_sentinel.Prelude.Text.{Text, utf8, text_eq}
use amp_sentinel.Intake.Event.{RawEvent}
use amp_sentinel.Project.Registry.{Project, new_registry, lookup_project, add_projects}
use amp_sentinel.Store.Table.{find_record, put_record}
use amp_sentinel.Store.JsonStore.{
  JsonData, get_event, list_tasks, page, create_event, offset_of, limit_of, admits, update_task,
  update_event, create_task, matches_task,
}
use amp_sentinel.Main.Intake.{event_to_store, receive}
use amp_sentinel.Api.Messages.{Request, first_active, is_active}
use amp_sentinel.Api.Server.{Server, is_public, route, serve, handle_retry, tasks_of_event}
use amp_sentinel.Api.Server.Access.{is_bare, serve_unauthorized}
use amp_sentinel.Api.Server.Retry.{unchanged, attempted, handle_retry-receive}
use amp_sentinel.Diagnosis.Report.{Report}
use amp_sentinel.Diagnosis.Engine.{Engine, DiagnoseError}
use amp_sentinel.Main.Task.{
  run_task, finish, outcome_of, over_store, finish_failed, mark_event, mark_found, store_task,
  failed, failed_task, new_task,
}
use amp_sentinel.Diagnosis.Engine.Diagnose.{diagnose, diagnose_project}
use amp_sentinel.Tests.Running.{json}
use amp_sentinel.Tests.Engineering.{event, world, codec, patterns, engine}

abbrev no_data : JsonData
no_data = record { events = []; tasks = []; reports = [] }

abbrev submit : RawEvent → Option Text
submit e = some (b't' ∷ [])

abbrev server : Server
server = record {
  auth_token = b'k' ∷ [];
  store = (receive submit event no_data).0;
  registry = new_registry [];
  counters = record { in_work = 0; done = 0; gone_wrong = 0 };
  now = 100;
  sort_events = λ es. es;
  sort_tasks = λ ts. ts;
  atoi = λ s. none;
  submit = submit;
}

abbrev request : Request
request = record {
  method = b'P' ∷ b'O' ∷ b'S' ∷ b'T' ∷ [];
  path = utf8 "/admin/v1/tasks";
  authorization = utf8 "Bearer x";
  query = λ k. [];
}

serve_unauthorized_example :
    ((is_bare (serve server request).0.body ≡ true) × ((serve server request).1 ≡ none))
    × ((serve server request).0.status
        ≡ (if is_public server request then (route server request).0.status else 401))
unfolding text_eq utf8
serve_unauthorized_example = serve_unauthorized server request refl refl

abbrev no_projects : Engine
no_projects = record engine { registry = new_registry [] }

abbrev error_text : DiagnoseError → Text
error_text e = []

abbrev sends : RawEvent → Project → Report → Bool
sends e p r = true

abbrev attempt : JsonData → JsonData
attempt d =
    (run_task world codec patterns json no_projects error_text sends (b't' ∷ []) event 3 9 [] d).0

-- The server after an attempt at the event's task, which has failed.
abbrev later : Server
later = record server { store = attempt server.store }

new_event : get_event no_data event.id ≡ none
unfolding get_event find_record
new_event = refl

idle : first_active (tasks_of_event later event.id) ≡ none
unfolding get_event find_record text_eq utf8 first_active tasks_of_event list_tasks page run_task
    finish outcome_of diagnose diagnose_project lookup_project over_store new_registry add_projects
    finish_failed update_task mark_event mark_found update_event store_task create_task put_record
    matches_task is_active failed failed_task new_task receive create_event offset_of limit_of
    admits event_to_store
idle = refl

posted : text_eq request.method (utf8 "POST") ≡ true
unfolding text_eq utf8
posted = refl

handle_retry-receive_example : (handle_retry later request event.id).1 ≡ some event
handle_retry-receive_example =
    handle_retry-receive world codec patterns json no_projects error_text sends later request submit
      event no_data new_event
      (attempted server.store server.store (b't' ∷ []) event 3 9 [] (unchanged server.store)) posted
      idle
