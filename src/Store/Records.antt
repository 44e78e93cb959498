-- ===== src/Store/Records.antt =====
-- store/store.go: the records of the store and the filters of its lists. A pointer to a time is an Option.
use amp_sentinel.Prelude.{ℕ, Bool, List, Option}
use amp_sentinel.Prelude.Int.{ℤ}
use amp_sentinel.Prelude.Text.{Text}
use amp_sentinel.Diagnosis.Types.{Float64}

pub record Event : Type 0 where
  pub id : Text
  pub project_key : Text
  pub payload : Text
  pub source : Text
  pub severity : Text
  pub title : Text
  pub status : Text
  pub received_at : ℕ

pub record DiagnosisTask : Type 0 where
  pub id : Text
  pub event_id : Text
  pub project_key : Text
  pub status : Text
  pub priority : ℤ
  pub session_id : Text
  pub num_turns : ℕ
  pub duration_ms : ℕ
  pub input_tokens : ℕ
  pub output_tokens : ℕ
  pub error : Text
  pub retry_count : ℕ
  pub created_at : ℕ
  pub started_at : Option ℕ
  pub finished_at : Option ℕ

pub record DiagnosisReport : Type 0 where
  pub id : Text
  pub task_id : Text
  pub event_id : Text
  pub project_key : Text
  pub project_name : Text
  pub summary : Text
  pub raw_result : Text
  pub confidence : Text
  pub has_issue : Bool
  pub tainted : Bool
  pub notified : Bool
  pub tools_used : List Text
  pub skills_used : List Text
  pub diagnosed_at : ℕ
  pub structured_result : Text
  pub quality_score : Text
  pub commit_hash : Text
  pub prompt_version : Text
  pub original_confidence : Float64
  pub final_confidence : Float64
  pub final_conf_label : Text
  pub fingerprint : Text
  pub reused_from_id : Text

pub record EventFilter : Type 0 where
  pub project_key : Text
  pub source : Text
  pub status : Text
  pub severity : Text
  pub limit : ℤ
  pub offset : ℤ

pub record TaskFilter : Type 0 where
  pub event_id : Text
  pub project_key : Text
  pub status : Text
  pub limit : ℤ
  pub offset : ℤ
