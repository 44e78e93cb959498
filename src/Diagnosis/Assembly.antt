-- ===== src/Diagnosis/Assembly.antt =====
-- diagnosis/engine.go, step 10 of Diagnose: the report of a run.
use amp_sentinel.Prelude.{ℕ, Bool, false, List, [], ◌∷◌, ◌++◌, Option, none, some, if◌then◌else◌}
use amp_sentinel.Prelude.Int.{pos}
use amp_sentinel.Prelude.Text.{Text, utf8, text_eq}
use amp_sentinel.Amp.Types.{Usage, ExecuteResult}
use amp_sentinel.Diagnosis.Types.{
  DiagnosisJson, QualityScore, Float64, float_zero, float_0_3, float_0_8, float_half, high, medium,
  low, flag_schema_invalid,
}
use amp_sentinel.Diagnosis.Report.{UsageInfo, Report}
use amp_sentinel.Diagnosis.Heuristics.{extract_summary, detect_has_issue, detect_confidence}

-- Go's zero value.
unfoldable pub zero_score : QualityScore
zero_score = record {
  normalized = 0;
  max_possible = 0;
  schema = 0;
  evidence = 0;
  code_verify = pos 0;
  coherence = 0;
  actionable = 0;
  non_code_path = pos 0;
  flags = [];
}

-- `switch report.Confidence`; a label of no case leaves zero.
unfoldable pub label_value : Text → Float64
label_value label =
    if text_eq label high
    then float_0_8
    else if text_eq label medium
    then float_half
    else if text_eq label low
    then float_0_3
    else float_zero

unfoldable pub usage_info : Option Usage → Option UsageInfo
usage_info none = none
usage_info (some u) =
    some (record { input_tokens = u.input_tokens; output_tokens = u.output_tokens })

-- What is known about a run when its report is made.
pub record Run : Type 0 where
  pub incident_id : Text
  pub project_key : Text
  pub project_name : Text
  pub result : ExecuteResult
  pub skills_used : List Text
  pub tainted : Bool
  pub fingerprint : Text
  pub commit_hash : Text
  pub prompt_version : Text
  pub structured_output : Bool
  pub now : ℕ

-- The fields that the three branches share.
unfoldable pub blank_report : Run → Report
blank_report run = record {
  id = [];
  task_id = [];
  incident_id = run.incident_id;
  project_key = run.project_key;
  project_name = run.project_name;
  summary = [];
  raw_result = run.result.result;
  has_issue = false;
  confidence = [];
  session_id = run.result.session_id;
  duration_ms = run.result.duration_ms;
  num_turns = run.result.num_turns;
  tools_used = run.result.tools_used;
  skills_used = run.skills_used;
  tainted = run.tainted;
  notified = false;
  diagnosed_at = run.now;
  usage = usage_info run.result.usage;
  structured_result = none;
  quality_score = zero_score;
  original_confidence = float_zero;
  final_confidence = float_zero;
  final_conf_label = [];
  fingerprint = run.fingerprint;
  commit_hash = run.commit_hash;
  reused_from_id = [];
  prompt_version = run.prompt_version;
}

unfoldable pub failed_report : Run → Report
failed_report run =
    let r = blank_report run in
    record r {
      summary = utf8 "诊断执行异常: " ++ run.result.error;
      has_issue = false;
      confidence = low;
      final_conf_label = low;
      original_confidence = float_0_3;
      final_confidence = float_0_3;
    }

unfoldable pub structured_report : Run → DiagnosisJson → QualityScore → Report
structured_report run d score =
    let r = blank_report run in
    record r {
      summary = d.summary;
      has_issue = d.conclusion.has_issue;
      confidence = d.conclusion.confidence_label;
      structured_result = some d;
      original_confidence = d.conclusion.confidence;
      final_confidence = d.conclusion.confidence;
      final_conf_label = d.conclusion.confidence_label;
      quality_score = score;
    }

module _ (to_lower : Text → Text) where
  unfoldable pub heuristic_report : Run → Report
  heuristic_report run =
      let r = blank_report run in
      let label = detect_confidence to_lower run.result.result in
      record r {
        summary = extract_summary run.result.result;
        has_issue = detect_has_issue to_lower run.result.result;
        confidence = label;
        final_conf_label = label;
        original_confidence = label_value label;
        final_confidence = label_value label;
        quality_score =
            if run.structured_output
            then record zero_score { flags = flag_schema_invalid ∷ [] }
            else zero_score;
      }

  unfoldable pub build_report : Run → Option (DiagnosisJson × QualityScore) → Report
  build_report run none = if run.result.is_error then failed_report run else heuristic_report run
  build_report run (some (d, score)) =
      if run.result.is_error then failed_report run else structured_report run d score
