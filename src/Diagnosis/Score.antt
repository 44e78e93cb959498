-- ===== src/Diagnosis/Score.antt =====
-- diagnosis/scoring.go without the file system: the dimensions, the flags and the normalised total;
-- and diagnosis/engine.go, steps 7 to 9, where a verification result joins them.
pub mod Bounds
use amp_sentinel.Prelude.{
  ℕ, ◌+◌, ◌*◌, ◌/◌, Bool, true, false, not, ◌&&◌, ◌||◌, List, [], ◌∷◌, ◌++◌, ltb, leb, ◌==◌,
  if◌then◌else◌, length, any,
}
use amp_sentinel.Prelude.Int.{ℤ, pos, negsuc, pos_part, leb_ℤ}
use amp_sentinel.Prelude.Text.{Text, utf8, text_eq, is_empty, one_of}
use amp_sentinel.Prelude.Runes.{runes}
use amp_sentinel.Diagnosis.Types.{
  DiagnosisJson, RootCause, Evidence, QualityScore, float_zero, float_one, high,
  valid_confidence_labels, is_insufficient_information, total_evidence, flag_no_evidence,
  flag_high_conf_no_support, flag_empty_remediation, flag_auto_fixed_ev_type,
}

-- `len(xs) > 0`
abbrev pub some_of {ℓ} : {A : Type ℓ} → List A → Bool
some_of xs = ltb 0 (length xs)

-- `len([]rune(s)) > n`
unfoldable pub longer_than : ℕ → Text → Bool
unfolding runes
longer_than n s = ltb n (length (runes s))

unfoldable pub score_schema : DiagnosisJson → ℕ
score_schema d =
    (if not (is_empty d.summary) then 5 else 0)
    + (if leb_ℤ float_zero d.conclusion.confidence && leb_ℤ d.conclusion.confidence float_one
        then 5
        else 0)
    + (if one_of valid_confidence_labels d.conclusion.confidence_label then 3 else 0)
    + (if some_of d.root_causes then 5 else 0)
    + (if length d.auto_fixed_evidence_types == 0 then 2 else 0)

-- The loops that sum `len(rc.VerificationSteps)`.
unfoldable pub total_steps : List RootCause → ℕ
total_steps [] = 0
total_steps (rc ∷ rcs) = length rc.verification_steps + total_steps rcs

unfoldable pub score_verification_steps : DiagnosisJson → ℕ
unfolding total_steps longer_than
score_verification_steps d =
    (if leb 1 (total_steps d.root_causes) then 10 else 0)
    + (if any (λ rc. any (longer_than 20) rc.verification_steps) d.root_causes then 10 else 0)

unfoldable pub is_detailed : Evidence → Bool
unfolding longer_than
is_detailed ev = longer_than 30 ev.detail || not (is_empty ev.file)

unfoldable pub score_evidence : DiagnosisJson → ℕ
unfolding score_verification_steps is_detailed is_insufficient_information total_evidence
score_evidence d =
    if is_insufficient_information d
    then score_verification_steps d
    else (if leb 1 (total_evidence d.root_causes) then 10 else 0)
      + (if any (λ rc. any is_detailed rc.evidence) d.root_causes then 10 else 0)

unfoldable pub score_coherence : DiagnosisJson → ℕ
unfolding total_evidence
score_coherence d =
    (if d.conclusion.has_issue && some_of d.root_causes
      then 8
      else if not d.conclusion.has_issue
      then 8
      else 0)
    + (if text_eq d.conclusion.confidence_label high
        then (if leb 2 (total_evidence d.root_causes) then 7 else 0)
        else 7)

unfoldable pub score_actionable : DiagnosisJson → ℕ
unfolding longer_than
score_actionable d =
    (if some_of d.remediations then 8 else 0)
    + (if any (longer_than 20) d.remediations then 7 else 0)

unfoldable pub score_non_code_path : DiagnosisJson → ℕ
unfolding longer_than
score_non_code_path d =
    (if some_of d.non_code_factors then 5 else 0)
    + (if any (longer_than 20) d.non_code_factors then 5 else 0)

-- `if b { flags = append(flags, flag) }`
abbrev pub flag_if : Bool → Text → List Text
flag_if b f = if b then f ∷ [] else []

unfoldable pub collect_flags : DiagnosisJson → List Text
unfolding total_evidence is_insufficient_information
collect_flags d =
    let total = total_evidence d.root_causes in
    flag_if (total == 0 && not (is_insufficient_information d)) flag_no_evidence
    ++ (flag_if (text_eq d.conclusion.confidence_label high && ltb total 2)
          flag_high_conf_no_support
        ++ (flag_if (length d.remediations == 0) flag_empty_remediation
            ++ flag_if (some_of d.auto_fixed_evidence_types) flag_auto_fixed_ev_type))

-- The total and its maximum are left at zero until `normalize_score`.
unfoldable pub score_quality : DiagnosisJson → QualityScore
unfolding score_schema score_evidence score_coherence score_actionable score_non_code_path
    collect_flags
score_quality d = record {
  normalized = 0;
  max_possible = 0;
  schema = score_schema d;
  evidence = score_evidence d;
  code_verify = negsuc 0;
  coherence = score_coherence d;
  actionable = score_actionable d;
  non_code_path = if length d.code_locations == 0 then pos (score_non_code_path d) else negsuc 0;
  flags = collect_flags d;
}

-- What a dimension adds to the maximum and to the total, if it applies.
unfoldable pub applies : ℤ → Bool
applies v = leb_ℤ (pos 0) v

unfoldable pub max_possible_of : QualityScore → ℕ
unfolding applies
max_possible_of s =
    20
    + 20
    + (if applies s.code_verify then 20 else 0)
    + 15
    + 15
    + (if applies s.non_code_path then 10 else 0)

unfoldable pub total_of : QualityScore → ℕ
unfolding applies
total_of s =
    s.schema
    + s.evidence
    + (if applies s.code_verify then pos_part s.code_verify else 0)
    + s.coherence
    + s.actionable
    + (if applies s.non_code_path then pos_part s.non_code_path else 0)

-- Returns the score with `MaxPossible` set, and the normalised total.
unfoldable pub normalize_score : QualityScore → QualityScore × ℕ
unfolding max_possible_of total_of
normalize_score s =
    let top = max_possible_of s in
    (record s { max_possible = top }, if top == 0 then 0 else total_of s * 100 / top)

unfoldable pub code : Text
unfolding utf8
code = utf8 "code"

unfoldable pub has_code_evidence : DiagnosisJson → Bool
has_code_evidence d = any (λ rc. any (λ ev. text_eq ev.type code) rc.evidence) d.root_causes

-- Engine.Diagnose: step 7 corrects the result of `VerifyCodeLocations`, step 9 joins it to the score.
unfoldable pub with_verification : DiagnosisJson → ℤ → List Text → QualityScore
unfolding score_quality has_code_evidence
with_verification d verify_score verify_flags =
    let q = score_quality d in
    record q {
      code_verify =
          if leb_ℤ (pos 0) verify_score
          then verify_score
          else if has_code_evidence d
          then pos 0
          else verify_score;
      flags = q.flags ++ verify_flags;
    }

unfoldable pub assess : DiagnosisJson → ℤ → List Text → QualityScore
unfolding with_verification normalize_score
assess d verify_score verify_flags =
    let (s, total) = normalize_score (with_verification d verify_score verify_flags) in
    record s { normalized = total }
