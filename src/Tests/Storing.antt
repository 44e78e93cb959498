-- ===== src/Tests/Storing.antt =====
-- Examples for the store: two events, one report, and pages of one event.
use mathlib.Core.List.{Mem}
use amp_sentinel.Prelude.{◌≡◌, ◌⊎◌, refl, true, false, not, List, [], ◌∷◌, none, some, all}
use amp_sentinel.Prelude.Int.{pos}
use amp_sentinel.Prelude.Text.{Text}
use amp_sentinel.Store.Records.{Event, DiagnosisTask, DiagnosisReport, EventFilter}
use amp_sentinel.Store.Table.{IsDistinct}
use amp_sentinel.Store.JsonStore.{JsonData, is_candidate, find_recent_report_by_fingerprint}
use amp_sentinel.Store.JsonStore.Lookup.{IsConsistentData}
use amp_sentinel.Store.JsonStore.Recent.{is_no_better, find_recent_report_by_fingerprint_latest}

abbrev event_named : Text → Event
event_named name = record {
  id = name;
  project_key = b'p' ∷ [];
  payload = [];
  source = [];
  severity = [];
  title = [];
  status = [];
  received_at = 1;
}

abbrev first_event : Event
first_event = event_named (b'a' ∷ [])

abbrev second_event : Event
second_event = event_named (b'b' ∷ [])

abbrev some_task : DiagnosisTask
some_task = record {
  id = b't' ∷ [];
  event_id = b'a' ∷ [];
  project_key = b'p' ∷ [];
  status = [];
  priority = pos 50;
  session_id = [];
  num_turns = 0;
  duration_ms = 0;
  input_tokens = 0;
  output_tokens = 0;
  error = [];
  retry_count = 0;
  created_at = 2;
  started_at = none;
  finished_at = none;
}

abbrev some_report : DiagnosisReport
some_report = record {
  id = b'r' ∷ [];
  task_id = b't' ∷ [];
  event_id = b'a' ∷ [];
  project_key = b'p' ∷ [];
  project_name = [];
  summary = [];
  raw_result = [];
  confidence = [];
  has_issue = true;
  tainted = false;
  notified = false;
  tools_used = [];
  skills_used = [];
  diagnosed_at = 9;
  structured_result = [];
  quality_score = [];
  commit_hash = [];
  prompt_version = [];
  original_confidence = pos 0;
  final_confidence = pos 0;
  final_conf_label = [];
  fingerprint = b'f' ∷ [];
  reused_from_id = [];
}

abbrev data_of_one : JsonData
data_of_one = record { events = first_event ∷ []; tasks = []; reports = some_report ∷ [] }

data_of_one-IsConsistentData : IsConsistentData data_of_one
unfolding IsDistinct
data_of_one-IsConsistentData = record {
  events_distinct = (refl, tt);
  tasks_distinct = tt;
  reports_distinct = (refl, tt);
}

find_recent_report_by_fingerprint_latest_example :
    ((find_recent_report_by_fingerprint data_of_one (b'p' ∷ []) (b'f' ∷ []) 5 ≡ none)
      × (all (λ x. not (is_candidate (b'p' ∷ []) (b'f' ∷ []) 5 x)) data_of_one.reports ≡ true))
    ⊎ ((r : DiagnosisReport) × (find_recent_report_by_fingerprint data_of_one
            (b'p' ∷ [])
            (b'f' ∷ [])
            5
          ≡ some r)
        × (is_candidate (b'p' ∷ []) (b'f' ∷ []) 5 r ≡ true)
        × Mem r data_of_one.reports
        × (all (is_no_better (b'p' ∷ []) (b'f' ∷ []) 5 r) data_of_one.reports ≡ true))
find_recent_report_by_fingerprint_latest_example =
    find_recent_report_by_fingerprint_latest (b'p' ∷ []) (b'f' ∷ []) 5 data_of_one

abbrev everything : EventFilter
everything = record {
  project_key = [];
  source = [];
  status = [];
  severity = [];
  limit = pos 0;
  offset = pos 0;
}

abbrev unsorted : List Event → List Event
unsorted xs = xs
