-- ===== src/Main/Reports.antt =====
-- main.go: the report that is stored for a report of the engine, and the report that the search of the store gives back.
use amp_sentinel.Prelude.{◌≡◌, ◌||◌, Bool, false, [], ◌++◌, Option, none, some, if◌then◌else◌}
use amp_sentinel.Prelude.Text.{Text, utf8, text_eq, is_empty}
use amp_sentinel.Diagnosis.Types.{DiagnosisJson, QualityScore}
use amp_sentinel.Diagnosis.Report.{Report}
use amp_sentinel.Diagnosis.Assembly.{zero_score}
use amp_sentinel.Diagnosis.Engine.{FingerprintLookup}
use amp_sentinel.Store.Records.{DiagnosisReport}
use amp_sentinel.Store.JsonStore.{JsonData, find_recent_report_by_fingerprint}

-- encoding/json on answers and scores. Marshalling a score may fail.
pub record JsonLibrary : Type 0 where
  pub marshal_diagnosis : DiagnosisJson → Text
  pub unmarshal_diagnosis : Text → Option DiagnosisJson
  pub marshal_score : QualityScore → Option Text
  pub unmarshal_score : Text → Option QualityScore

abbrev pub or_empty : Option Text → Text
or_empty none = []
or_empty (some s) = s

abbrev pub is_absent : Text → Bool
is_absent s = is_empty s || text_eq s (utf8 "null")

module _ (json : JsonLibrary) where
  unfoldable pub structured_text : Option DiagnosisJson → Text
  structured_text none = []
  structured_text (some d) = json.marshal_diagnosis d

  unfoldable pub score_text : QualityScore → Text
  score_text q = or_empty (json.marshal_score q)

  unfoldable pub to_store : Text → Report → DiagnosisReport
  to_store task_id r = record {
    id = utf8 "rpt-" ++ task_id;
    task_id = task_id;
    event_id = r.incident_id;
    project_key = r.project_key;
    project_name = r.project_name;
    summary = r.summary;
    raw_result = r.raw_result;
    confidence = r.confidence;
    has_issue = r.has_issue;
    tainted = r.tainted;
    notified = r.notified;
    tools_used = r.tools_used;
    skills_used = r.skills_used;
    diagnosed_at = r.diagnosed_at;
    structured_result = structured_text r.structured_result;
    quality_score = score_text r.quality_score;
    commit_hash = r.commit_hash;
    prompt_version = r.prompt_version;
    original_confidence = r.original_confidence;
    final_confidence = r.final_confidence;
    final_conf_label = r.final_conf_label;
    fingerprint = r.fingerprint;
    reused_from_id = r.reused_from_id;
  }

  unfoldable pub read_structured : Text → Option DiagnosisJson
  read_structured s = if is_absent s then none else json.unmarshal_diagnosis s

  unfoldable pub or_zero : Option QualityScore → QualityScore
  or_zero none = zero_score
  or_zero (some q) = q

  unfoldable pub read_score : Text → QualityScore
  read_score s = if is_absent s then zero_score else or_zero (json.unmarshal_score s)

  -- The conversion in the lookup of main.
  unfoldable pub restore : DiagnosisReport → Report
  restore s = record {
    id = [];
    task_id = s.task_id;
    incident_id = s.event_id;
    project_key = s.project_key;
    project_name = s.project_name;
    summary = s.summary;
    raw_result = s.raw_result;
    has_issue = s.has_issue;
    confidence = s.confidence;
    session_id = [];
    duration_ms = 0;
    num_turns = 0;
    tools_used = s.tools_used;
    skills_used = s.skills_used;
    tainted = s.tainted;
    notified = false;
    diagnosed_at = s.diagnosed_at;
    usage = none;
    structured_result = read_structured s.structured_result;
    quality_score = read_score s.quality_score;
    original_confidence = s.original_confidence;
    final_confidence = s.final_confidence;
    final_conf_label = s.final_conf_label;
    fingerprint = s.fingerprint;
    commit_hash = s.commit_hash;
    reused_from_id = [];
    prompt_version = s.prompt_version;
  }

  unfoldable pub restore_found : Option DiagnosisReport → Option Report
  restore_found none = none
  restore_found (some s) = some (restore s)

  -- The lookup over the JSON store, which gives no error.
  unfoldable pub store_lookup : JsonData → FingerprintLookup
  store_lookup d at key fingerprint since =
      some (restore_found (find_recent_report_by_fingerprint d key fingerprint since))

  -- The answer and the score of a report are read back as they were written.
  pub record ReadsBack (r : Report) : Type 0 where
    pub answer : read_structured (structured_text r.structured_result) ≡ r.structured_result
    pub score : read_score (score_text r.quality_score) ≡ r.quality_score
