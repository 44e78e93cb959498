-- ===== src/Api/Server.antt =====
-- api/server.go: the admin API over the JSON store, for requests that net/http has taken apart.
use amp_sentinel.Prelude.{
  ℕ, ◌+◌, Bool, not, ◌||◌, List, [], ◌∷◌, ◌++◌, Option, none, some, map, if◌then◌else◌,
}
use amp_sentinel.Prelude.Int.{ℤ, pos}
use amp_sentinel.Prelude.Text.{Text, utf8, text_eq, is_empty}
use amp_sentinel.Intake.Event.{RawEvent}
use amp_sentinel.Project.Registry.{Registry, all_projects}
use amp_sentinel.Scheduler.Work.{Stats}
use amp_sentinel.Store.Records.{Event, DiagnosisTask, DiagnosisReport, EventFilter, TaskFilter}
use amp_sentinel.Store.JsonStore.{
  JsonData, get_event, list_events, get_task, list_tasks, get_report, get_usage_summary,
}
use amp_sentinel.Api.Messages.{
  Request, Response, coalesce, event_from_store, first_active, has_prefix, is_clean_path, is_method,
  not_allowed, parse_int_param, strip_suffix, trim_prefix, view, write_error, write_json, status_ok,
  stats, projects, events, event, tasks, task, report, retried, dashboard, moved,
}
pub mod Access
pub mod Retry

-- What the server works on: the store's data, the registry, the scheduler's counters, the clock, the sorting of lists
-- by time, Atoi, and the submission of an event, which gives the id of its task or nothing.
pub record Server : Type 0 where
  pub auth_token : Text
  pub store : JsonData
  pub registry : Registry
  pub counters : Stats
  pub now : ℕ
  pub sort_events : List Event → List Event
  pub sort_tasks : List DiagnosisTask → List DiagnosisTask
  pub atoi : Text → Option ℤ
  pub submit : RawEvent → Option Text

module _ (s : Server) where
  unfoldable pub handle_health : Request → Response
  handle_health r = if is_method (utf8 "GET") r then write_json 200 status_ok else not_allowed

  unfoldable pub handle_stats : Request → Response
  handle_stats r =
      if is_method (utf8 "GET") r
      then write_json 200 (stats (get_usage_summary s.store s.now) s.counters)
      else not_allowed

  unfoldable pub handle_projects : Request → Response
  handle_projects r =
      if is_method (utf8 "GET") r
      then write_json 200 (projects (map view (all_projects s.registry)))
      else not_allowed

  unfoldable pub event_filter : Request → EventFilter
  event_filter r = record {
    project_key = r.query (utf8 "project_key");
    source = [];
    status = r.query (utf8 "status");
    severity = r.query (utf8 "severity");
    limit = parse_int_param s.atoi (r.query (utf8 "limit")) (pos 50);
    offset = parse_int_param s.atoi (r.query (utf8 "offset")) (pos 0);
  }

  unfoldable pub handle_events_list : Request → Response
  handle_events_list r =
      if is_method (utf8 "GET") r
      then write_json 200 (events (list_events s.sort_events s.store (event_filter r)))
      else not_allowed

  unfoldable pub task_filter : Request → TaskFilter
  task_filter r = record {
    event_id = coalesce (r.query (utf8 "event_id") ∷ r.query (utf8 "incident_id") ∷ []);
    project_key = r.query (utf8 "project_key");
    status = r.query (utf8 "status");
    limit = parse_int_param s.atoi (r.query (utf8 "limit")) (pos 50);
    offset = parse_int_param s.atoi (r.query (utf8 "offset")) (pos 0);
  }

  unfoldable pub handle_tasks_list : Request → Response
  handle_tasks_list r =
      if is_method (utf8 "GET") r
      then write_json 200 (tasks (list_tasks s.sort_tasks s.store (task_filter r)))
      else not_allowed

  unfoldable pub found_task : Option DiagnosisTask → Response
  found_task none = write_error 404 (utf8 "task not found")
  found_task (some t) = write_json 200 (task t)

  unfoldable pub handle_tasks_detail : Request → Response
  handle_tasks_detail r =
      let id = trim_prefix (utf8 "/admin/v1/tasks/") r.path in
      if not (is_method (utf8 "GET") r)
      then not_allowed
      else if is_empty id
      then write_error 400 (utf8 "task id required")
      else found_task (get_task s.store id)

  unfoldable pub found_report : Option DiagnosisReport → Response
  found_report none = write_error 404 (utf8 "report not found")
  found_report (some r) = write_json 200 (report r)

  unfoldable pub handle_reports : Request → Response
  handle_reports r =
      let id = trim_prefix (utf8 "/admin/v1/reports/") r.path in
      if not (is_method (utf8 "GET") r)
      then not_allowed
      else if is_empty id
      then write_error 400 (utf8 "task_id required")
      else found_report (get_report s.store id)

  unfoldable pub found_event : Option Event → Response
  found_event none = write_error 404 (utf8 "event not found")
  found_event (some e) = write_json 200 (event e)

  -- A response, and the event that was handed to the scheduler, if any.
  abbrev pub Reply : Type 0
  Reply = Response × Option RawEvent

  unfoldable pub resubmitted : Text → RawEvent → Option Text → Reply
  resubmitted id e none = (write_error 500 (utf8 "failed to resubmit incident"), some e)
  resubmitted id e (some task_id) = (write_json 200 (retried id task_id), some e)

  unfoldable pub resubmit_unless : Option DiagnosisTask → Text → Event → Reply
  resubmit_unless (some t) id e =
      (write_error 409 (utf8 "incident has an active diagnosis task: " ++ t.id), none)
  resubmit_unless none id e = resubmitted id (event_from_store e) (s.submit (event_from_store e))

  unfoldable pub tasks_of_event : Text → List DiagnosisTask
  tasks_of_event id =
      list_tasks s.sort_tasks s.store
        (record { event_id = id; project_key = []; status = []; limit = pos 100; offset = pos 0 })

  unfoldable pub retry_found : Option Event → Text → Reply
  retry_found none id = (write_error 404 (utf8 "event not found"), none)
  retry_found (some e) id = resubmit_unless (first_active (tasks_of_event id)) id e

  unfoldable pub handle_retry : Request → Text → Reply
  handle_retry r id =
      if is_method (utf8 "POST") r
      then retry_found (get_event s.store id) id
      else (not_allowed, none)

  unfoldable pub detail_or_retry : Option Text → Request → Text → Reply
  detail_or_retry (some id) r path = handle_retry r id
  detail_or_retry none r path =
      if is_method (utf8 "GET") r
      then (found_event (get_event s.store path), none)
      else (not_allowed, none)

  unfoldable pub handle_events_detail : Request → Reply
  handle_events_detail r =
      let path = trim_prefix (utf8 "/admin/v1/incidents/") r.path in
      if is_empty path
      then (write_error 400 (utf8 "event id required"), none)
      else detail_or_retry (strip_suffix (utf8 "/retry") path) r path

  abbrev pub redirected : Reply
  redirected = (write_json 301 moved, none)

  -- The routes of Handler, as http.ServeMux chooses among them. It answers the path of a subtree that is given
  -- without its last slash by a redirect, unless that path has a route of its own.
  unfoldable pub matched : Request → Reply
  matched r =
      if has_prefix (utf8 "/admin/dashboard/") r.path
      then (write_json 200 dashboard, none)
      else if text_eq r.path (utf8 "/admin/dashboard")
      then redirected
      else if text_eq r.path (utf8 "/admin/v1/health")
      then (handle_health r, none)
      else if text_eq r.path (utf8 "/admin/v1/stats")
      then (handle_stats r, none)
      else if text_eq r.path (utf8 "/admin/v1/projects")
      then (handle_projects r, none)
      else if text_eq r.path (utf8 "/admin/v1/incidents")
      then (handle_events_list r, none)
      else if has_prefix (utf8 "/admin/v1/incidents/") r.path
      then handle_events_detail r
      else if text_eq r.path (utf8 "/admin/v1/tasks")
      then (handle_tasks_list r, none)
      else if has_prefix (utf8 "/admin/v1/tasks/") r.path
      then (handle_tasks_detail r, none)
      else if has_prefix (utf8 "/admin/v1/reports/") r.path
      then (handle_reports r, none)
      else if text_eq r.path (utf8 "/admin/v1/reports")
      then redirected
      else (write_error 404 (utf8 "404 page not found"), none)

  -- http.ServeMux redirects a request whose path is not clean, but for CONNECT.
  unfoldable pub route : Request → Reply
  route r = if is_method (utf8 "CONNECT") r || is_clean_path r.path then matched r else redirected

  unfoldable pub is_public : Request → Bool
  is_public r =
      text_eq r.path (utf8 "/admin/v1/health") || has_prefix (utf8 "/admin/dashboard") r.path

  unfoldable pub auth_middleware : Request → Reply
  auth_middleware r =
      if is_public r
      then route r
      else if text_eq r.authorization (utf8 "Bearer " ++ s.auth_token)
      then route r
      else (write_error 401 (utf8 "unauthorized"), none)

  unfoldable pub serve : Request → Reply
  serve r = if is_empty s.auth_token then route r else auth_middleware r
