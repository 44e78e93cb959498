-- ===== src/Store/JsonStore.antt =====
-- store/json.go: JSONStore's operations on its data; the mutex makes each of them one step.
use amp_sentinel.Prelude.{
  ◌%◌, ◌-◌, ◌*◌, ◌+◌, length, ℕ, zero, suc, ◌+◌, ◌-◌, ◌*◌, Bool, true, false, not, ◌&&◌, ◌||◌, List,
  [], ◌∷◌, ◌++◌, Option, none, some, ltb, leb, ◌==◌, if◌then◌else◌, length, take, drop, select,
  is_some,
}
use amp_sentinel.Prelude.Int.{ℤ, pos, negsuc}
use amp_sentinel.Prelude.Text.{Text, text_eq, is_empty}
use amp_sentinel.Store.Records.{Event, DiagnosisTask, DiagnosisReport, EventFilter, TaskFilter}
use amp_sentinel.Store.Table.{find_record, put_record}
pub mod Lookup
pub mod Recent
pub mod Pages

-- jsonData. A clone of a record is the record.
pub record JsonData : Type 0 where
  pub events : List Event
  pub tasks : List DiagnosisTask
  pub reports : List DiagnosisReport

abbrev pub event_key : Event → Text
event_key e = e.id

abbrev pub task_key : DiagnosisTask → Text
task_key t = t.id

abbrev pub report_key : DiagnosisReport → Text
report_key r = r.id

pub data StoreError : Type 0 where
  already_exists : Text → StoreError
  not_found : Text → StoreError

unfoldable pub get_event : JsonData → Text → Option Event
get_event d id = find_record event_key d.events id

unfoldable pub create_event : JsonData → Event → JsonData × Option StoreError
create_event d e =
    if is_some (find_record event_key d.events e.id)
    then (d, some (already_exists e.id))
    else (record d { events = put_record event_key d.events e }, none)

unfoldable pub update_event : JsonData → Event → JsonData × Option StoreError
update_event d e =
    if is_some (find_record event_key d.events e.id)
    then (record d { events = put_record event_key d.events e }, none)
    else (d, some (not_found e.id))

unfoldable pub get_task : JsonData → Text → Option DiagnosisTask
get_task d id = find_record task_key d.tasks id

unfoldable pub create_task : JsonData → DiagnosisTask → JsonData × Option StoreError
create_task d t =
    if is_some (find_record task_key d.tasks t.id)
    then (d, some (already_exists t.id))
    else (record d { tasks = put_record task_key d.tasks t }, none)

unfoldable pub update_task : JsonData → DiagnosisTask → JsonData × Option StoreError
update_task d t =
    if is_some (find_record task_key d.tasks t.id)
    then (record d { tasks = put_record task_key d.tasks t }, none)
    else (d, some (not_found t.id))

unfoldable pub save_report : JsonData → DiagnosisReport → JsonData
save_report d r = record d { reports = put_record report_key d.reports r }

-- GetReport: the first report of the task that the map gives.
unfoldable pub first_of_task : List DiagnosisReport → Text → Option DiagnosisReport
first_of_task [] task_id = none
first_of_task (r ∷ rs) task_id =
    let rest = first_of_task rs task_id in if text_eq r.task_id task_id then some r else rest

unfoldable pub get_report : JsonData → Text → Option DiagnosisReport
get_report d task_id = first_of_task d.reports task_id

-- `want != "" && have != want` refuses.
unfoldable pub admits : Text → Text → Bool
admits want have = is_empty want || text_eq have want

unfoldable pub matches_event : EventFilter → Event → Bool
matches_event f e =
    admits f.project_key e.project_key
    && admits f.source e.source
    && admits f.status e.status
    && admits f.severity e.severity

unfoldable pub matches_task : TaskFilter → DiagnosisTask → Bool
matches_task f t =
    admits f.event_id t.event_id && admits f.project_key t.project_key && admits f.status t.status

unfoldable pub limit_of : ℤ → ℕ
limit_of (pos zero) = 50
limit_of (pos (suc n)) = suc n
limit_of (negsuc n) = 50

unfoldable pub offset_of : ℤ → ℕ
offset_of (pos n) = n
offset_of (negsuc n) = 0

-- `result[offset:end]`, and nothing where the offset lies past the end.
unfoldable pub page {ℓ} : {A : Type ℓ} → ℤ → ℤ → List A → List A
page limit offset xs =
    if leb (length xs) (offset_of offset)
    then []
    else take (limit_of limit) (drop (offset_of offset) xs)

-- ListEvents; `sort` is sort.Slice by the time of receipt, the latest first.
unfoldable pub list_events : (List Event → List Event) → JsonData → EventFilter → List Event
list_events sort d f = page f.limit f.offset (sort (select (matches_event f) d.events))

-- ListTasks; `sort` is sort.Slice by the time of creation, the latest first.
unfoldable pub list_tasks :
    (List DiagnosisTask → List DiagnosisTask) → JsonData → TaskFilter → List DiagnosisTask
list_tasks sort d f = page f.limit f.offset (sort (select (matches_task f) d.tasks))

-- The entry of one status in CountByStatus.
unfoldable pub count_status : List DiagnosisTask → Text → ℕ
count_status [] s = 0
count_status (t ∷ ts) s =
    let rest = count_status ts s in if text_eq t.status s then rest + 1 else rest

unfoldable pub count_by_status : JsonData → Text → ℕ
count_by_status d s = count_status d.tasks s

-- A report that FindRecentReportByFingerprint considers: an original one of the project and fingerprint, not too old.
unfoldable pub is_candidate : Text → Text → ℕ → DiagnosisReport → Bool
is_candidate project fingerprint since r =
    text_eq r.project_key project
    && text_eq r.fingerprint fingerprint
    && not (ltb r.diagnosed_at since)
    && is_empty r.reused_from_id

unfoldable pub is_later : Option DiagnosisReport → DiagnosisReport → Bool
is_later none r = true
is_later (some best) r = ltb best.diagnosed_at r.diagnosed_at

unfoldable pub best_of :
    Text → Text → ℕ → Option DiagnosisReport → List DiagnosisReport → Option DiagnosisReport
best_of project fingerprint since best [] = best
best_of project fingerprint since best (r ∷ rs) =
    best_of project fingerprint since
      (if is_candidate project fingerprint since r && is_later best r then some r else best) rs

unfoldable pub find_recent_report_by_fingerprint :
    JsonData → Text → Text → ℕ → Option DiagnosisReport
find_recent_report_by_fingerprint d project fingerprint since =
    best_of project fingerprint since none d.reports

pub record UsageSummary : Type 0 where
  pub total_events : ℕ
  pub today_events : ℕ
  pub tasks_by_status : Text → ℕ
  pub total_input_tokens : ℕ
  pub total_output_tokens : ℕ

abbrev pub day : ℕ
day = 86400 * 1000000000

-- `now.Truncate(24 * time.Hour)`: the epoch of the times is Go's zero time.
unfoldable pub today_from : ℕ → ℕ
today_from now = now - now % day

unfoldable pub count_since : ℕ → List Event → ℕ
count_since today [] = 0
count_since today (e ∷ es) =
    let rest = count_since today es in if not (ltb e.received_at today) then rest + 1 else rest

unfoldable pub sum_tokens : (DiagnosisTask → ℕ) → List DiagnosisTask → ℕ
sum_tokens tokens [] = 0
sum_tokens tokens (t ∷ ts) = tokens t + sum_tokens tokens ts

unfoldable pub get_usage_summary : JsonData → ℕ → UsageSummary
get_usage_summary d now = record {
  total_events = length d.events;
  today_events = count_since (today_from now) d.events;
  tasks_by_status = count_status d.tasks;
  total_input_tokens = sum_tokens (λ t. t.input_tokens) d.tasks;
  total_output_tokens = sum_tokens (λ t. t.output_tokens) d.tasks;
}
