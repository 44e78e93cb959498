-- ===== src/Diagnosis/Reuse.antt =====
-- diagnosis/fingerprint.go: which cached report may be reused, and the report made from it.
pub mod Safe
use amp_sentinel.Prelude.{
  ℕ, Bool, true, false, not, ◌&&◌, ◌||◌, List, [], ◌∷◌, ◌++◌, Option, none, some, any, ltb,
  if◌then◌else◌,
}
use amp_sentinel.Prelude.Text.{Text, utf8, text_eq, is_empty}
use amp_sentinel.Intake.Event.{RawEvent, critical}
use amp_sentinel.Diagnosis.Types.{
  DiagnosisJson, QualityScore, is_insufficient_information, flag_hallucinated_file,
  flag_hallucinated_line,
}
use amp_sentinel.Diagnosis.Report.{Report}

unfoldable pub flag_reused_stale_commit : Text
unfolding utf8
flag_reused_stale_commit = utf8 "REUSED_STALE_COMMIT"

-- `cached.StructuredResult != nil && cached.StructuredResult.IsInsufficientInformation()`
unfoldable pub is_inconclusive : Option DiagnosisJson → Bool
is_inconclusive none = false
is_inconclusive (some d) = is_insufficient_information d

unfoldable pub is_hallucination : Text → Bool
is_hallucination f = text_eq f flag_hallucinated_file || text_eq f flag_hallucinated_line

unfoldable pub commit_match : Text → Text → Bool
commit_match current cached = is_empty current || is_empty cached || text_eq current cached

-- `none` is `false, nil`; `some flags` is `true, flags`.
unfoldable pub may_reuse : Report → Text → Text → ℕ → Option (List Text)
may_reuse cached current severity min_score =
    if cached.tainted
    then none
    else if is_inconclusive cached.structured_result
    then none
    else if ltb cached.quality_score.normalized min_score
    then none
    else if any is_hallucination cached.quality_score.flags
    then none
    else if not (commit_match current cached.commit_hash)
    then (if text_eq severity critical then none else some (flag_reused_stale_commit ∷ []))
    else some []

unfoldable pub can_reuse : Option Report → Text → Text → ℕ → Option (List Text)
unfolding may_reuse
can_reuse none current severity min_score = none
can_reuse (some cached) current severity min_score = may_reuse cached current severity min_score

-- `if len(extraFlags) > 0 { ... }`
unfoldable pub with_flags : QualityScore → List Text → QualityScore
with_flags s [] = s
with_flags s (f ∷ fs) = record s { flags = s.flags ++ f ∷ fs }

-- `now` is the time of the call.
unfoldable pub build_reused_report : Report → RawEvent → Text → Text → Text → List Text → ℕ → Report
build_reused_report cached event proj_name current fingerprint extra_flags now = record {
  id = [];
  task_id = [];
  incident_id = event.id;
  project_key = event.project_key;
  project_name = proj_name;
  summary = cached.summary;
  raw_result = cached.raw_result;
  has_issue = cached.has_issue;
  confidence = cached.confidence;
  session_id = cached.session_id;
  duration_ms = 0;
  num_turns = 0;
  tools_used = cached.tools_used;
  skills_used = cached.skills_used;
  tainted = false;
  notified = false;
  diagnosed_at = now;
  usage = none;
  structured_result = cached.structured_result;
  quality_score = with_flags cached.quality_score extra_flags;
  original_confidence = cached.original_confidence;
  final_confidence = cached.final_confidence;
  final_conf_label = cached.final_conf_label;
  fingerprint = fingerprint;
  commit_hash = current;
  reused_from_id = cached.task_id;
  prompt_version = cached.prompt_version;
}
