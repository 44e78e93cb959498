-- ===== src/Diagnosis/Parse/Sound.antt =====
-- diagnosis/structured.go, ParseDiagnosisJSON: where what it returns comes from.
use amp_sentinel.Prelude.{
  ◌≡◌, ◌≢◌, ◌⊎◌, inl, inr, Bool, false, Option, none, some, arith, if◌then◌else◌, Option-cases,
}
use amp_sentinel.Prelude.Text.{Text, is_empty}
use amp_sentinel.Diagnosis.Types.{DiagnosisJson}
use amp_sentinel.Diagnosis.Repair.{extract_json_object}
use amp_sentinel.Diagnosis.Parse.{
  Validation, valid, invalid, validate_diagnosis_json, to_option, parse_and_validate,
  parse_diagnosis_json, repair, extract_json_block, ◌orelse◌,
}
use amp_sentinel.Diagnosis.Parse.Valid.{
  IsValid, validate_diagnosis_json-IsValid, IsValid-validate_diagnosis_json,
}

none≢some : {d : DiagnosisJson} → none ≢ some d
none≢some = grind arith

orelse-cases :
    (a b : Option DiagnosisJson) {d : DiagnosisJson}
    → (a orelse b) ≡ some d
    → (a ≡ some d) ⊎ (b ≡ some d)
orelse-cases none b h = inr h
orelse-cases (some x) b h = inl h

to_option-valid : (v : Validation) {d : DiagnosisJson} → to_option v ≡ some d → v ≡ valid d
unfolding to_option
to_option-valid (valid x) h = cc
to_option-valid (invalid e) h = cc

module _ (unmarshal : Text → Option DiagnosisJson) where
  -- `d` is what validation makes of the value that `text` stands for.
  pub record ComesFrom (text : Text) (d : DiagnosisJson) : Type 0 where
    pub value : DiagnosisJson
    pub read : unmarshal text ≡ some value
    pub validated : validate_diagnosis_json value ≡ valid d

  parse_and_validate-ComesFrom :
      (text : Text) {d : DiagnosisJson}
      → parse_and_validate unmarshal text ≡ some d
      → ComesFrom text d
  unfolding parse_and_validate
  parse_and_validate-ComesFrom text h = elim (Option-cases (unmarshal text)) [
    | inl e ↦ absurd (none≢some (rw e at h))
    | inr (x, e) ↦ record {
      value = x;
      read = e;
      validated = to_option-valid (validate_diagnosis_json x) (rw e at h);
    }
  ]

  ComesFrom-parse_and_validate :
      (text : Text) {d : DiagnosisJson}
      → ComesFrom text d
      → parse_and_validate unmarshal text ≡ some d
  unfolding parse_and_validate
  ComesFrom-parse_and_validate text c = rw (c.read, c.validated)

  -- The texts that are tried, in order: the fenced block, the block repaired, and the first object of
  -- the answer repaired.
  pub data Candidate (raw : Text) : Text → Type 0 where
    block : Candidate raw (extract_json_block raw)
    repaired : Candidate raw (repair (extract_json_block raw))
    object : Candidate raw (repair (extract_json_object raw))

  -- `d` is valid, and comes from one of the texts tried.
  abbrev pub IsSound : Text → DiagnosisJson → Type 0
  IsSound raw d = IsValid d × ((text : Text) × Candidate raw text × ComesFrom text d)

  Candidate-IsSound :
      {raw text : Text} {d : DiagnosisJson}
      → Candidate raw text
      → parse_and_validate unmarshal text ≡ some d
      → IsSound raw d
  Candidate-IsSound {text = text} k h =
      let c = parse_and_validate-ComesFrom text h in
      (validate_diagnosis_json-IsValid c.value c.validated, (text, k, c))

  unguarded :
      (b : Bool) (o : Option DiagnosisJson) {d : DiagnosisJson}
      → (if b then none else o) ≡ some d
      → o ≡ some d
  unguarded b o h = ground arith

  guarded :
      (b : Bool) (o : Option DiagnosisJson) {d : DiagnosisJson}
      → (if b then o else none) ≡ some d
      → o ≡ some d
  guarded b o h = ground arith

  -- What `ParseDiagnosisJSON` returns meets the conditions of validation, and is what validation makes of the
  -- value of one of the texts tried: the fenced block, the block repaired, or the first object repaired.
  pub parse_diagnosis_json-IsSound :
      (raw : Text) {d : DiagnosisJson} → parse_diagnosis_json unmarshal raw ≡ some d → IsSound raw d
  unfolding parse_diagnosis_json
  parse_diagnosis_json-IsSound raw h =
      elim (orelse-cases (parse_and_validate unmarshal (extract_json_block raw)) _
        (unguarded (is_empty raw) _ h)) [
          | inl a ↦ Candidate-IsSound block a
          | inr r ↦
              elim (orelse-cases (parse_and_validate unmarshal (repair (extract_json_block raw))) _
                r) [
                  | inl b ↦ Candidate-IsSound repaired b
                  | inr c ↦ Candidate-IsSound object (guarded _ _ c)
                ]
        ]

  -- If the block taken from an answer that is not empty reads as a diagnosis that meets the conditions of
  -- validation, `ParseDiagnosisJSON` returns this diagnosis.
  pub parse_diagnosis_json_block :
      (raw : Text) {d : DiagnosisJson}
      → is_empty raw ≡ false
      → unmarshal (extract_json_block raw) ≡ some d
      → IsValid d
      → parse_diagnosis_json unmarshal raw ≡ some d
  unfolding parse_diagnosis_json
  parse_diagnosis_json_block raw ne h v = rw (
    ne,
    ComesFrom-parse_and_validate (extract_json_block raw)
        (record { value = _; read = h; validated = IsValid-validate_diagnosis_json _ v }),
  )
