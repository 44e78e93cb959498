-- ===== src/Diagnosis/Score/Bounds.antt =====
-- diagnosis/scoring.go: the range of each dimension and of the total.
use native.Mathlib.Nat.{div-le_of_le-mul, le-div_iff_mul-le, le_antisymm}
use amp_sentinel.Prelude.{ℕ, ◌*◌, ◌/◌, ◌≤◌, ◌<◌, ◌≡◌, ◌↔◌, List, arith, ltb, if◌then◌else◌, length}
use amp_sentinel.Prelude.Int.{ℤ, negsuc, pos_part, neg_part}
use amp_sentinel.Prelude.Text.{Text}
use amp_sentinel.Diagnosis.Types.{DiagnosisJson, QualityScore}
use amp_sentinel.Diagnosis.Score.{
  score_schema, score_evidence, score_verification_steps, score_coherence, score_actionable,
  score_non_code_path, score_quality, normalize_score, max_possible_of, total_of, assess,
  with_verification, has_code_evidence,
}

pub score_schema-le : (d : DiagnosisJson) → score_schema d ≤ 20
unfolding score_schema
score_schema-le d = ground arith

pub score_verification_steps-le : (d : DiagnosisJson) → score_verification_steps d ≤ 20
unfolding score_verification_steps
score_verification_steps-le d = ground arith

pub score_evidence-le : (d : DiagnosisJson) → score_evidence d ≤ 20
unfolding score_evidence
score_evidence-le d = ground (arith, score_verification_steps-le d)

pub score_coherence-le : (d : DiagnosisJson) → score_coherence d ≤ 15
unfolding score_coherence
score_coherence-le d = ground arith

pub score_actionable-le : (d : DiagnosisJson) → score_actionable d ≤ 15
unfolding score_actionable
score_actionable-le d = ground arith

pub score_non_code_path-le : (d : DiagnosisJson) → score_non_code_path d ≤ 10
unfolding score_non_code_path
score_non_code_path-le d = ground arith

-- A dimension that does not apply is -1; else it lies between 0 and `top`.
abbrev pub DimensionIn : ℕ → ℤ → Type 0
DimensionIn top v = (pos_part v ≤ top) × (neg_part v ≤ 1)

pub record InRange (s : QualityScore) : Type 0 where
  pub schema_range : s.schema ≤ 20
  pub evidence_range : s.evidence ≤ 20
  pub code_verify_range : DimensionIn 20 s.code_verify
  pub coherence_range : s.coherence ≤ 15
  pub actionable_range : s.actionable ≤ 15
  pub non_code_path_range : DimensionIn 10 s.non_code_path

pub score_quality-InRange : (d : DiagnosisJson) → InRange (score_quality d)
unfolding score_quality
score_quality-InRange d = record {
  schema_range = score_schema-le d;
  evidence_range = score_evidence-le d;
  code_verify_range = omega arith;
  coherence_range = score_coherence-le d;
  actionable_range = score_actionable-le d;
  non_code_path_range = ground (arith, score_non_code_path-le d);
}

-- A part of a positive maximum, in percent, rounded down.
pub percent-le : (t m : ℕ) → t ≤ m → 0 < m → t * 100 / m ≤ 100
percent-le t m h p = div-le_of_le-mul m (omega arith)

pub percent_full : (t m : ℕ) → t ≤ m → 0 < m → (t * 100 / m ≡ 100) ↔ (t ≡ m)
percent_full t m h p =
    let reach = le-div_iff_mul-le {k = m} {x = 100} {y = t * 100} p in
    (
      λ e. omega (arith, reach.0 (omega arith)),
      λ e. le_antisymm (percent-le t m h p) (reach.1 (omega arith)),
    )

pub total_of-le : (s : QualityScore) → InRange s → total_of s ≤ max_possible_of s
unfolding total_of max_possible_of
total_of-le s r = ground arith

pub max_possible_of-cases : (s : QualityScore) → (0 < max_possible_of s) × (max_possible_of s ≤ 100)
unfolding max_possible_of
max_possible_of-cases s = ground arith

-- Dimensions in range give a total of 0 to 100 percent, and the full 100 only for full marks.
pub normalize_score_bounds :
    (s : QualityScore)
    → InRange s
    → ((normalize_score s).1 ≤ 100)
      × (((normalize_score s).1 ≡ 100) ↔ (total_of s ≡ max_possible_of s))
unfolding normalize_score
normalize_score_bounds s r =
    let fits = total_of-le s r in
    let top = max_possible_of-cases s in
    ground (
      arith,
      percent-le (total_of s) (max_possible_of s) fits top.0,
      percent_full (total_of s) (max_possible_of s) fits top.0,
    )

-- What `VerifyCodeLocations` returns for a diagnosis: -1 without locations, else 0 to 20.
pub record IsVerified (d : DiagnosisJson) (v : ℤ) : Type 0 where
  pub range : DimensionIn 20 v
  pub absent : length d.code_locations ≡ 0 → v ≡ negsuc 0
  pub present : 0 < length d.code_locations → neg_part v ≡ 0

module _ (d : DiagnosisJson) (v : ℤ) (fs : List Text) (h : IsVerified d v) where
  with_verification-InRange : InRange (with_verification d v fs)
  unfolding with_verification
  with_verification-InRange = let r = score_quality-InRange d in ground arith

  -- A diagnosis with code locations is scored over 90 points; one without over 80, or over 100 if
  -- some evidence claims to be code.
  max_possible_of-with_verification :
      max_possible_of (with_verification d v fs)
      ≡ (if ltb 0 (length d.code_locations) then 90 else if has_code_evidence d then 100 else 80)
  unfolding with_verification max_possible_of score_quality
  max_possible_of-with_verification = ground (arith, h.absent, h.present)

  -- A normalised score is at most 100. Where `VerifyCodeLocations` answers as it does (-1 exactly
  -- without locations, else 0 to 20), the points it is taken from are 90 with code locations, and
  -- without them 100 if some evidence claims to be code and 80 if none does. The score is 100
  -- exactly when every dimension that applies has full marks.
  pub assess_bounds :
      ((assess d v fs).normalized ≤ 100)
      × ((assess d v fs).max_possible ≡ (
          if ltb 0 (length d.code_locations) then 90 else if has_code_evidence d then 100 else 80))
      × (((assess d v fs).normalized ≡ 100)
          ↔ (total_of (with_verification d v fs) ≡ (assess d v fs).max_possible))
  unfolding assess normalize_score
  assess_bounds =
      let b = normalize_score_bounds (with_verification d v fs) with_verification-InRange in
      (b.0, max_possible_of-with_verification, b.1)
