-- ===== src/Diagnosis/Report.antt =====
-- diagnosis/report.go: the report of a diagnosis. A time is nanoseconds since an epoch.
use amp_sentinel.Prelude.{ℕ, Bool, List, Option}
use amp_sentinel.Prelude.Text.{Text}
use amp_sentinel.Diagnosis.Types.{DiagnosisJson, QualityScore, Float64}

pub record UsageInfo : Type 0 where
  pub input_tokens : ℕ
  pub output_tokens : ℕ

pub record Report : Type 0 where
  pub id : Text
  pub task_id : Text
  pub incident_id : Text
  pub project_key : Text
  pub project_name : Text
  pub summary : Text
  pub raw_result : Text
  pub has_issue : Bool
  pub confidence : Text
  pub session_id : Text
  pub duration_ms : ℕ
  pub num_turns : ℕ
  pub tools_used : List Text
  pub skills_used : List Text
  pub tainted : Bool
  pub notified : Bool
  pub diagnosed_at : ℕ
  pub usage : Option UsageInfo
  pub structured_result : Option DiagnosisJson
  pub quality_score : QualityScore
  pub original_confidence : Float64
  pub final_confidence : Float64
  pub final_conf_label : Text
  pub fingerprint : Text
  pub commit_hash : Text
  pub reused_from_id : Text
  pub prompt_version : Text
