-- ===== src/Diagnosis/Types.antt =====
-- diagnosis/structured.go, diagnosis/scoring.go, diagnosis/report.go: the data of a diagnosis.
-- A string is its bytes. An `int` that comes from outside is a ℤ, a count is a ℕ. A float64 is finite
-- here (JSON has no other), and is the whole number of units 2⁻¹⁰⁷⁴ that it stands for, exactly.
use amp_sentinel.Prelude.{ℕ, ◌*◌, ◌^◌, Bool, List, [], ◌∷◌, any, length, ◌+◌}
use amp_sentinel.Prelude.Int.{ℤ, pos}
use amp_sentinel.Prelude.Text.{Text, utf8, text_eq}

abbrev pub Float64 : Type 0
Float64 = ℤ

-- The literals 0, 0.3, 0.5, 0.8 and 1.
unfoldable pub float_zero : Float64
float_zero = pos 0

unfoldable pub float_one : Float64
float_one = pos (2 ^ 1074)

unfoldable pub float_half : Float64
float_half = pos (2 ^ 1073)

unfoldable pub float_0_8 : Float64
float_0_8 = pos (3602879701896397 * 2 ^ 1022)

unfoldable pub float_0_3 : Float64
float_0_3 = pos (5404319552844595 * 2 ^ 1020)

pub record Conclusion : Type 0 where
  pub has_issue : Bool
  pub confidence : Float64
  pub confidence_label : Text

pub record Evidence : Type 0 where
  pub type : Text
  pub detail : Text
  pub file : Text
  pub line_start : ℤ
  pub line_end : ℤ

pub record RootCause : Type 0 where
  pub rank : ℤ
  pub hypothesis : Text
  pub evidence : List Evidence
  pub counter_evidence : List Text
  pub verification_steps : List Text

pub record CodeLocation : Type 0 where
  pub file : Text
  pub line_start : ℤ
  pub line_end : ℤ
  pub reason : Text

pub record DiagnosisJson : Type 0 where
  pub schema_version : Text
  pub summary : Text
  pub conclusion : Conclusion
  pub root_causes : List RootCause
  pub code_locations : List CodeLocation
  pub remediations : List Text
  pub next_actions : List Text
  pub non_code_factors : List Text
  pub auto_fixed_evidence_types : List Text

-- -1 in `code_verify` and `non_code_path` means that the dimension does not apply.
pub record QualityScore : Type 0 where
  pub normalized : ℕ
  pub max_possible : ℕ
  pub schema : ℕ
  pub evidence : ℕ
  pub code_verify : ℤ
  pub coherence : ℕ
  pub actionable : ℕ
  pub non_code_path : ℤ
  pub flags : List Text

unfoldable pub flag_schema_invalid : Text
unfolding utf8
flag_schema_invalid = utf8 "SCHEMA_INVALID"

unfoldable pub flag_no_evidence : Text
unfolding utf8
flag_no_evidence = utf8 "NO_EVIDENCE"

unfoldable pub flag_hallucinated_file : Text
unfolding utf8
flag_hallucinated_file = utf8 "HALLUCINATED_FILE"

unfoldable pub flag_hallucinated_line : Text
unfolding utf8
flag_hallucinated_line = utf8 "HALLUCINATED_LINE"

unfoldable pub flag_high_conf_no_support : Text
unfolding utf8
flag_high_conf_no_support = utf8 "HIGH_CONF_NO_SUPPORT"

unfoldable pub flag_empty_remediation : Text
unfolding utf8
flag_empty_remediation = utf8 "EMPTY_REMEDIATION"

unfoldable pub flag_auto_fixed_ev_type : Text
unfolding utf8
flag_auto_fixed_ev_type = utf8 "AUTO_FIXED_EVIDENCE_TYPE"

unfoldable pub high : Text
unfolding utf8
high = utf8 "high"

unfoldable pub medium : Text
unfolding utf8
medium = utf8 "medium"

unfoldable pub low : Text
unfolding utf8
low = utf8 "low"

unfoldable pub insufficient_information : Text
unfolding utf8
insufficient_information = utf8 "insufficient_information"

abbrev pub valid_confidence_labels : List Text
valid_confidence_labels = high ∷ medium ∷ low ∷ []

unfoldable pub is_insufficient_information : DiagnosisJson → Bool
is_insufficient_information d =
    any (λ rc. text_eq rc.hypothesis insufficient_information) d.root_causes

-- The loops `totalEvidence += len(rc.Evidence)`.
unfoldable pub total_evidence : List RootCause → ℕ
total_evidence [] = 0
total_evidence (rc ∷ rcs) = length rc.evidence + total_evidence rcs
