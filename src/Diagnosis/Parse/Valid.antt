-- ===== src/Diagnosis/Parse/Valid.antt =====
-- diagnosis/structured.go, validateDiagnosisJSON: what a result satisfies.
use mathlib.Core.List.{append-nil}
use amp_sentinel.Prelude.{
  suc, ◌≤◌, ◌<◌, ◌≡◌, refl, ap, ◌⊎◌, inl, inr, true, false, List, [], ◌∷◌, arith, ltb, ltb→lt,
  if◌then◌else◌, length, take, length-take, Bool-cases,
}
use amp_sentinel.Prelude.Int.{leb_ℤ}
use amp_sentinel.Prelude.Text.{Text, is_empty, one_of, text_eq, text_eq_refl}
use amp_sentinel.Prelude.Runes.{runes, from_runes, decode}
use amp_sentinel.Prelude.Runes.RoundTrip.{runes-take}
use amp_sentinel.Diagnosis.Types.{
  DiagnosisJson, Float64, Conclusion, RootCause, Evidence, float_zero, float_one,
  valid_confidence_labels, high, medium, low,
}
use amp_sentinel.Diagnosis.Parse.{
  valid, valid_evidence_types, log_type, needs_fix, fix_evidence, fixed_types, fix_causes,
  fixed_causes, cut_summary, fix_label, confidence_label_from_value, validate_diagnosis_json,
}

-- The type of an evidence is empty, or one of the four known.
abbrev pub IsTyped : Evidence → Type 0
IsTyped ev = (is_empty ev.type ≡ true) ⊎ (one_of valid_evidence_types ev.type ≡ true)

abbrev pub AllTyped : List Evidence → Type 0
AllTyped [] = Unit {0}
AllTyped (ev ∷ evs) = IsTyped ev × AllTyped evs

abbrev pub AllCausesTyped : List RootCause → Type 0
AllCausesTyped [] = Unit {0}
AllCausesTyped (rc ∷ rcs) = AllTyped rc.evidence × AllCausesTyped rcs

-- What validation asks of a diagnosis.
pub record IsValid (d : DiagnosisJson) : Type 0 where
  pub summary_filled : is_empty d.summary ≡ false
  pub summary_short : length (runes d.summary) ≤ 200
  pub confidence_low : leb_ℤ float_zero d.conclusion.confidence ≡ true
  pub confidence_high : leb_ℤ d.conclusion.confidence float_one ≡ true
  pub label_known : one_of valid_confidence_labels d.conclusion.confidence_label ≡ true
  pub has_causes : 0 < length d.root_causes
  pub typed : AllCausesTyped d.root_causes

log_type_known : one_of valid_evidence_types log_type ≡ true
unfolding valid_evidence_types log_type text_eq
log_type_known = refl

IsTyped-or_fixed : (ev : Evidence) → (needs_fix ev ≡ true) ⊎ IsTyped ev
unfolding needs_fix
IsTyped-or_fixed ev = ground arith

fixed-IsTyped :
    (ev : Evidence) → IsTyped (if needs_fix ev then record ev { type = log_type } else ev)
fixed-IsTyped ev = elim (Bool-cases (needs_fix ev)) [
  | inl e ↦ rw e (inr log_type_known)
  | inr e ↦ rw e (ground (arith, IsTyped-or_fixed ev))
]

fix_evidence-AllTyped : (evs : List Evidence) → AllTyped (fix_evidence evs)
unfolding fix_evidence
fix_evidence-AllTyped [] = tt
fix_evidence-AllTyped (ev ∷ evs) = (fixed-IsTyped ev, fix_evidence-AllTyped evs)

fix_causes-AllCausesTyped : (rcs : List RootCause) → AllCausesTyped (fix_causes rcs)
unfolding fix_causes
fix_causes-AllCausesTyped [] = tt
fix_causes-AllCausesTyped (rc ∷ rcs) =
    (fix_evidence-AllTyped rc.evidence, fix_causes-AllCausesTyped rcs)

filled_of_runes : (s : Text) → 0 < length (runes s) → is_empty s ≡ false
unfolding runes
filled_of_runes [] h = absurd (unfold decode in omega arith)
filled_of_runes (c ∷ s) h = refl

cut_summary_short : (s : Text) → length (runes (cut_summary s)) ≤ 200
unfolding cut_summary
cut_summary_short s = elim (Bool-cases (ltb 200 (length (runes s)))) [
  | inl e ↦ rw (e, runes-take 200 s) (omega (arith, length-take 200 (runes s)))
  | inr e ↦ rw e (ground arith)
]

cut_summary_filled : (s : Text) → is_empty s ≡ false → is_empty (cut_summary s) ≡ false
unfolding cut_summary
cut_summary_filled s h = elim (Bool-cases (ltb 200 (length (runes s)))) [
  | inl e ↦
      let cut : 0 < length (take 200 (runes s)) =
        omega (arith, ltb→lt _ _ e, length-take 200 (runes s)) in
      rw e (filled_of_runes (from_runes (take 200 (runes s))) (rw (runes-take 200 s) cut))
  | inr e ↦ rw e h
]

label_known :
    (conf : Float64) → one_of valid_confidence_labels (confidence_label_from_value conf) ≡ true
unfolding confidence_label_from_value
label_known conf = ground (arith, text_eq_refl high, text_eq_refl medium, text_eq_refl low)

fix_label_known :
    (c : Conclusion) → one_of valid_confidence_labels (fix_label c).confidence_label ≡ true
unfolding fix_label
fix_label_known c = elim (Bool-cases (one_of valid_confidence_labels c.confidence_label)) [
  | inl e ↦ rw e e
  | inr e ↦ rw e (label_known c.confidence)
]

length-fix_causes : (rcs : List RootCause) → length (fix_causes rcs) ≡ length rcs
unfolding fix_causes
length-fix_causes [] = refl
length-fix_causes (rc ∷ rcs) = ap suc (length-fix_causes rcs)

fix_label-confidence : (c : Conclusion) → (fix_label c).confidence ≡ c.confidence
unfolding fix_label
fix_label-confidence c = ground arith

-- Every diagnosis that validation accepts has a summary that is not empty and has at most 200 runes, a
-- confidence between 0 and 1 with a known label, some root cause, and no evidence of an unknown type.
pub validate_diagnosis_json-IsValid :
    (d : DiagnosisJson) {r : DiagnosisJson} → validate_diagnosis_json d ≡ valid r → IsValid r
unfolding validate_diagnosis_json
validate_diagnosis_json-IsValid d h = ground (
  arith,
  cut_summary_short d.summary,
  cut_summary_filled d.summary,
  fix_label_known d.conclusion,
  fix_label-confidence d.conclusion,
  length-fix_causes d.root_causes,
  fix_causes-AllCausesTyped d.root_causes,
)

IsTyped-needs_fix : (ev : Evidence) → IsTyped ev → needs_fix ev ≡ false
unfolding needs_fix
IsTyped-needs_fix ev h = ground arith

fix_evidence_same :
    (evs : List Evidence) → AllTyped evs → (fix_evidence evs ≡ evs) × (fixed_types evs ≡ [])
unfolding fix_evidence fixed_types
fix_evidence_same [] h = (refl, refl)
fix_evidence_same (ev ∷ evs) h =
    let rest = fix_evidence_same evs h.1 in
    rw (IsTyped-needs_fix ev h.0) (ap (◌∷◌ ev) rest.0, rest.1)

fix_causes_same :
    (rcs : List RootCause) → AllCausesTyped rcs → (fix_causes rcs ≡ rcs) × (fixed_causes rcs ≡ [])
unfolding fix_causes fixed_causes
fix_causes_same [] h = (refl, refl)
fix_causes_same (rc ∷ rcs) h =
    let here = fix_evidence_same rc.evidence h.0 in
    let rest = fix_causes_same rcs h.1 in
    (λ i. record rc { evidence = here.0 i } ∷ rest.0 i, rw (here.1) rest.1)

cut_summary_same : (s : Text) → length (runes s) ≤ 200 → cut_summary s ≡ s
unfolding cut_summary
cut_summary_same s h = ground arith

fix_label_same :
    (c : Conclusion) → one_of valid_confidence_labels c.confidence_label ≡ true → fix_label c ≡ c
unfolding fix_label
fix_label_same c h = rw h

-- A diagnosis with a summary of 1 to 200 runes, a confidence between 0 and 1 with a known label, some root
-- cause, and no evidence of an unknown type is accepted unchanged.
pub IsValid-validate_diagnosis_json :
    (d : DiagnosisJson) → IsValid d → validate_diagnosis_json d ≡ valid d
unfolding validate_diagnosis_json
IsValid-validate_diagnosis_json d v = ground (
  arith,
  cut_summary_same d.summary v.summary_short,
  fix_label_same d.conclusion v.label_known,
  fix_causes_same d.root_causes v.typed,
  append-nil d.auto_fixed_evidence_types,
)

-- What validation makes of a diagnosis that it accepts, it accepts unchanged.
pub validate_diagnosis_json_idem :
    (d : DiagnosisJson) {r : DiagnosisJson}
    → validate_diagnosis_json d ≡ valid r
    → validate_diagnosis_json r ≡ valid r
validate_diagnosis_json_idem d h =
    IsValid-validate_diagnosis_json _ (validate_diagnosis_json-IsValid d h)
