-- ===== src/Diagnosis/Engine/Reports.antt =====
-- diagnosis/engine.go, Diagnose: what every report that it gives satisfies.
use amp_sentinel.Prelude.{
  ℕ, ◌≤◌, ◌≡◌, refl, Bool, true, false, List, Option, none, some, arith, if◌then◌else◌,
}
use mathlib.Core.Path.{subst}
use amp_sentinel.Prelude.Text.{Text, text_eq, one_of}
use amp_sentinel.Intake.Event.{RawEvent}
use amp_sentinel.Diagnosis.Types.{
  DiagnosisJson, QualityScore, high, medium, low, valid_confidence_labels,
}
use amp_sentinel.Diagnosis.Parse.Valid.{IsValid}
use amp_sentinel.Diagnosis.Report.{Report}
use amp_sentinel.Diagnosis.Reuse.{build_reused_report}
use amp_sentinel.Diagnosis.Reuse.Safe.{with_flags-fields}
use amp_sentinel.Diagnosis.Heuristics.{detect_confidence}
use amp_sentinel.Diagnosis.Assembly.{
  Run, zero_score, blank_report, failed_report, structured_report, heuristic_report, build_report,
}
use amp_sentinel.Diagnosis.Engine.{ok}

-- A report with a structured answer repeats the verdict of that answer, which meets the conditions of validation; one
-- without has no score.
abbrev pub IsBacked : Option DiagnosisJson → Report → Type 0
IsBacked none r = r.quality_score.normalized ≡ 0
IsBacked (some d) r =
    IsValid d
    × (r.summary ≡ d.summary)
    × (r.has_issue ≡ d.conclusion.has_issue)
    × (r.confidence ≡ d.conclusion.confidence_label)
    × (r.final_confidence ≡ d.conclusion.confidence)

pub record IsSoundReport (r : Report) : Type 0 where
  pub label : one_of valid_confidence_labels r.confidence ≡ true
  pub final_label : r.final_conf_label ≡ r.confidence
  pub score : r.quality_score.normalized ≤ 100
  pub backed : IsBacked r.structured_result r

-- An answer with its score.
abbrev pub IsSoundAnswer : Option (DiagnosisJson × QualityScore) → Type 0
IsSoundAnswer none = Unit {0}
IsSoundAnswer (some (d, q)) = IsValid d × (q.normalized ≤ 100)

abbrev pub IsValidOption : Option DiagnosisJson → Type 0
IsValidOption none = Unit {0}
IsValidOption (some d) = IsValid d

ok_report : {r s : Report} → ok r ≡ ok s → r ≡ s
ok_report e = ground (arith, e)

labels_known :
    (one_of valid_confidence_labels low ≡ true)
    × (one_of valid_confidence_labels medium ≡ true)
    × (one_of valid_confidence_labels high ≡ true)
unfolding low medium high text_eq
labels_known = (refl, refl, refl)

detect_confidence-known :
    (to_lower : Text → Text) (s : Text)
    → one_of valid_confidence_labels (detect_confidence to_lower s) ≡ true
unfolding detect_confidence
detect_confidence-known to_lower s = ground (arith, labels_known)

failed-IsSoundReport : (run : Run) → IsSoundReport (failed_report run)
unfolding failed_report blank_report zero_score
failed-IsSoundReport run = record {
  label = labels_known.0;
  final_label = refl;
  score = omega arith;
  backed = refl;
}

heuristic-IsSoundReport :
    (to_lower : Text → Text) (run : Run) → IsSoundReport (heuristic_report to_lower run)
unfolding heuristic_report blank_report zero_score
heuristic-IsSoundReport to_lower run = record {
  label = detect_confidence-known to_lower run.result.result;
  final_label = refl;
  score = ground arith;
  backed = ground arith;
}

structured-IsSoundReport :
    (run : Run) (d : DiagnosisJson) (q : QualityScore)
    → IsValid d
    → q.normalized ≤ 100
    → IsSoundReport (structured_report run d q)
unfolding structured_report
structured-IsSoundReport run d q v b = record {
  label = v.label_known;
  final_label = refl;
  score = b;
  backed = (v, refl, refl, refl, refl);
}

choose-IsSoundReport :
    (b : Bool) (x y : Report)
    → IsSoundReport x
    → IsSoundReport y
    → IsSoundReport (if b then x else y)
choose-IsSoundReport true x y p q = p
choose-IsSoundReport false x y p q = q

pub build_report-IsSoundReport :
    (to_lower : Text → Text) (run : Run) (o : Option (DiagnosisJson × QualityScore))
    → IsSoundAnswer o
    → IsSoundReport (build_report to_lower run o)
unfolding build_report
build_report-IsSoundReport to_lower run none h =
    choose-IsSoundReport run.result.is_error _ _ (failed-IsSoundReport run)
      (heuristic-IsSoundReport to_lower run)
build_report-IsSoundReport to_lower run (some (d, q)) h =
    choose-IsSoundReport run.result.is_error _ _ (failed-IsSoundReport run)
      (structured-IsSoundReport run d q h.0 h.1)

pub carried : {x r : Report} → ok x ≡ ok r → IsSoundReport x → IsSoundReport r
carried e h = subst IsSoundReport (ok_report e) h

pub build_reused-IsSoundReport :
    (r : Report) (event : RawEvent) (name current fingerprint : Text) (flags : List Text) (now : ℕ)
    → IsSoundReport r
    → IsSoundReport (build_reused_report r event name current fingerprint flags now)
unfolding build_reused_report
build_reused-IsSoundReport r event name current fingerprint flags now h = record {
  label = h.label;
  final_label = h.final_label;
  score = ground (arith, h.score, with_flags-fields r.quality_score flags);
  backed = kept r.structured_result h.backed;
}
  where
    kept :
        (o : Option DiagnosisJson)
        → IsBacked o r
        → IsBacked o (build_reused_report r event name current fingerprint flags now)
    kept none b = ground (arith, b, with_flags-fields r.quality_score flags)
    kept (some d) b = b
