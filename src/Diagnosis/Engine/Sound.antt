-- ===== src/Diagnosis/Engine/Sound.antt =====
-- diagnosis/engine.go, Diagnose: every report that it gives is sound.
use amp_sentinel.Prelude.{
  ℕ, ◌≡◌, ◌≢◌, refl, inl, inr, Bool, not, ◌&&◌, List, Option, none, some, arith, Bool-cases,
  Option-cases, if◌then◌else◌,
}
use mathlib.Core.Path.{subst}
use amp_sentinel.Prelude.Text.{Text}
use amp_sentinel.Intake.Event.{RawEvent}
use amp_sentinel.Intake.Fingerprint.{Codec}
use amp_sentinel.Amp.Types.{ExecuteResult}
use amp_sentinel.Amp.Client.{ExecuteError}
use amp_sentinel.Effects.{World, Trace}
use amp_sentinel.Project.Registry.{Project}
use amp_sentinel.Project.Sources.{path_text}
use amp_sentinel.Diagnosis.Paths.{FilePath}
use amp_sentinel.Diagnosis.Types.{DiagnosisJson}
use amp_sentinel.Diagnosis.Verify.{Files}
use amp_sentinel.Diagnosis.Verify.Sound.{assess-verify_bounds}
use amp_sentinel.Diagnosis.Parse.{parse_diagnosis_json}
use amp_sentinel.Diagnosis.Parse.Sound.{parse_diagnosis_json-IsSound}
use amp_sentinel.Diagnosis.Report.{Report}
use amp_sentinel.Diagnosis.Payload.{Patterns}
use amp_sentinel.Diagnosis.Fixer.{fixed_answer, run_json_fixer}
use amp_sentinel.Diagnosis.Engine.{FingerprintLookup, Engine, Outcome, Seen, ok}
use amp_sentinel.Diagnosis.Engine.Steps.{active_lookup, check_tainted}
use amp_sentinel.Diagnosis.Engine.Diagnose.{
  reused, try_reuse, try_found, search_reuse, look_for_reuse, fix_answer, score_answer, read_answer,
  judge, judge_run, diagnose_source, diagnose_anew, unless_reused, diagnose_project, diagnose,
}
use amp_sentinel.Diagnosis.Engine.Reports.{
  IsSoundReport, IsSoundAnswer, IsValidOption, build_report-IsSoundReport,
  build_reused-IsSoundReport, carried,
}

some_report : {r s : Report} → some r ≡ some s → r ≡ s
some_report e = ground (arith, e)

unless_none :
    (b : Bool) (o : Option Report) {r : Report} → (if b then o else none) ≡ some r → o ≡ some r
unless_none b o e = ground (arith, e)

none_is_not : {l : FingerprintLookup} → none ≢ some l
none_is_not e = ground (arith, e)

module _ (unmarshal : Text → Option DiagnosisJson) where
  parse-valid : (raw : Text) → IsValidOption (parse_diagnosis_json unmarshal raw)
  parse-valid raw = elim (Option-cases (parse_diagnosis_json unmarshal raw)) [
    | inl e ↦ rw e tt
    | inr (d, e) ↦ rw e (parse_diagnosis_json-IsSound unmarshal raw e).0
  ]

  fixed-valid :
      (world : World) (ran : Option ExecuteError × ExecuteResult × Unit {0})
      → IsValidOption (fixed_answer world unmarshal ran)
  unfolding fixed_answer
  fixed-valid world (some e, result, s) = tt
  fixed-valid world (none, result, s) = elim (Bool-cases result.is_error) [
    | inl e ↦ rw e tt
    | inr e ↦ rw e (parse-valid result.result)
  ]

module _ (world : World) (codec : Codec) (patterns : Patterns)
    (unmarshal : Text → Option DiagnosisJson) (engine : Engine) where
  fix_answer-valid :
      (o : Option DiagnosisJson) (tr : Trace)
      → IsValidOption o
      → IsValidOption (fix_answer world codec patterns unmarshal engine o tr).0
  unfolding fix_answer run_json_fixer
  fix_answer-valid (some d) tr h = h
  fix_answer-valid none tr h = elim (Bool-cases engine.json_fixer_enabled) [
    | inl e ↦ rw e (fixed-valid unmarshal world _)
    | inr e ↦ rw e tt
  ]

  score_answer_sound :
      (files : Files) (src_dir : FilePath) (o : Option DiagnosisJson)
      → IsValidOption o
      → IsSoundAnswer (score_answer world codec patterns unmarshal engine files src_dir o)
  unfolding score_answer
  score_answer_sound files src_dir none h = tt
  score_answer_sound files src_dir (some d) h =
      (h, (assess-verify_bounds files (path_text src_dir) d).0)

  read_answer_sound :
      (result : ExecuteResult) (src_dir : FilePath) (tr : Trace)
      → IsSoundAnswer (read_answer world codec patterns unmarshal engine result src_dir tr).0
  unfolding read_answer
  read_answer_sound result src_dir tr =
      elim (Bool-cases (engine.structured_output && not result.is_error)) [
        | inl e ↦ rw e (
            score_answer_sound _ src_dir _
              (fix_answer-valid _ tr (parse-valid unmarshal result.result)))
        | inr e ↦ rw e tt
      ]

  module _ (event : RawEvent) (proj : Project) (r : Report) where
    abbrev Gives : Outcome × Trace → Type 0
    Gives out = out.0 ≡ ok r

    judge_sound :
        (fingerprint hash : Text) (src_dir : FilePath) (result : ExecuteResult) (seen : Seen)
        (tr : Trace)
        → Gives (
            judge world codec patterns unmarshal engine event proj fingerprint hash src_dir result
              seen tr)
        → IsSoundReport r
    unfolding judge
    judge_sound fingerprint hash src_dir result seen tr e = carried e (
        build_report-IsSoundReport patterns.to_lower _ _
          (read_answer_sound result src_dir (check_tainted world engine proj.key tr).1))

    judge_run_sound :
        (fingerprint hash : Text) (src_dir : FilePath)
        (ran : Option ExecuteError × ExecuteResult × Seen) (tr : Trace)
        → Gives (
            judge_run world codec patterns unmarshal engine event proj fingerprint hash src_dir ran
              tr)
        → IsSoundReport r
    unfolding judge_run
    judge_run_sound fingerprint hash src_dir (some e, result, seen) tr g =
        absurd (ground (arith, g))
    judge_run_sound fingerprint hash src_dir (none, result, seen) tr g =
        judge_sound fingerprint hash src_dir result seen tr g

    diagnose_source_sound :
        (o : Option FilePath) (fingerprint : Text) (tr : Trace)
        → Gives (diagnose_source world codec patterns unmarshal engine o event proj fingerprint tr)
        → IsSoundReport r
    unfolding diagnose_source
    diagnose_source_sound none fingerprint tr g = absurd (ground (arith, g))
    diagnose_source_sound (some src_dir) fingerprint tr g =
        judge_run_sound fingerprint _ src_dir _ _ g

    diagnose_anew_sound :
        (fingerprint : Text) (tr : Trace)
        → Gives (diagnose_anew world codec patterns unmarshal engine event proj fingerprint tr)
        → IsSoundReport r
    unfolding diagnose_anew
    diagnose_anew_sound fingerprint tr g = diagnose_source_sound _ fingerprint _ g

    reused_sound :
        (cached : Report) (hash fingerprint : Text) (o : Option (List Text)) (now : ℕ)
        → IsSoundReport cached
        → reused world codec patterns unmarshal engine cached event proj hash fingerprint o now
          ≡ some r
        → IsSoundReport r
    unfolding reused
    reused_sound cached hash fingerprint none now h g = absurd (ground (arith, g))
    reused_sound cached hash fingerprint (some flags) now h g =
        subst IsSoundReport (some_report g)
          (build_reused-IsSoundReport cached event proj.name hash fingerprint flags now h)

    try_reuse_sound :
        (cached : Report) (fingerprint : Text) (tr : Trace)
        → IsSoundReport cached
        → (try_reuse world codec patterns unmarshal engine cached event proj fingerprint tr).0
          ≡ some r
        → IsSoundReport r
    unfolding try_reuse
    try_reuse_sound cached fingerprint tr h g =
        reused_sound cached _ fingerprint _ _ h (unless_none _ _ g)

    try_found_sound :
        (o : Option (Option Report)) (fingerprint : Text) (tr : Trace)
        → ((c : Report) → o ≡ some (some c) → IsSoundReport c)
        → (try_found world codec patterns unmarshal engine o event proj fingerprint tr).0 ≡ some r
        → IsSoundReport r
    unfolding try_found
    try_found_sound none fingerprint tr h g = absurd (ground (arith, g))
    try_found_sound (some none) fingerprint tr h g = absurd (ground (arith, g))
    try_found_sound (some (some cached)) fingerprint tr h g =
        try_reuse_sound cached fingerprint tr (h cached refl) g

    look_for_reuse_sound :
        (o : Option FingerprintLookup) (tr : Trace)
        → ((lookup : FingerprintLookup)
            → o ≡ some lookup
            → (at : Trace) (key fingerprint : Text) (since : ℕ) (c : Report)
            → lookup at key fingerprint since ≡ some (some c)
            → IsSoundReport c)
        → (look_for_reuse world codec patterns unmarshal engine o event proj tr).0 ≡ some r
        → IsSoundReport r
    unfolding look_for_reuse search_reuse
    look_for_reuse_sound none tr h g = absurd (ground (arith, g))
    look_for_reuse_sound (some lookup) tr h g =
        try_found_sound _ _ _ (h lookup refl tr proj.key _ _) g

  unless_reused_sound :
      (event : RawEvent) (proj : Project) (r : Report) (o : Option Report) (tr : Trace)
      → ((x : Report) → o ≡ some x → IsSoundReport x)
      → (unless_reused world codec patterns unmarshal engine o event proj tr).0 ≡ ok r
      → IsSoundReport r
  unfolding unless_reused
  unless_reused_sound event proj r (some x) tr h g = carried g (h x refl)
  unless_reused_sound event proj r none tr h g = diagnose_anew_sound event proj r _ tr g

  active_lookup-lookup :
      (lookup : FingerprintLookup)
      → active_lookup world engine ≡ some lookup
      → engine.fingerprint_lookup ≡ some lookup
  unfolding active_lookup
  active_lookup-lookup lookup e = elim (Bool-cases engine.fp_config.enabled) [
    | inl b ↦ rw b at e
    | inr b ↦ absurd (none_is_not (rw b at e))
  ]

  diagnose_project_sound :
      (o : Option Project) (event : RawEvent) (r : Report) (tr : Trace)
      → ((lookup : FingerprintLookup)
          → engine.fingerprint_lookup ≡ some lookup
          → (at : Trace) (key fingerprint : Text) (since : ℕ) (c : Report)
          → lookup at key fingerprint since ≡ some (some c)
          → IsSoundReport c)
      → (diagnose_project world codec patterns unmarshal engine o event tr).0 ≡ ok r
      → IsSoundReport r
  unfolding diagnose_project
  diagnose_project_sound none event r tr h g = absurd (ground (arith, g))
  diagnose_project_sound (some proj) event r tr h g =
      unless_reused_sound event proj r _ _
        (λ x e.
          look_for_reuse_sound event proj x (active_lookup world engine) tr
            (λ lookup a. h lookup (active_lookup-lookup lookup a)) e)
        g

  -- If every report that the store's search can give is sound, then so is every report that a diagnosis gives, made anew, by the
  -- heuristics, for a failed run, or reused: its label is one of the three known, and the final label; its score is at most 100; a
  -- structured answer meets the conditions of validation and its summary, verdict, label and confidence are the report's; and without
  -- one the score is 0.
  pub diagnose-IsSoundReport :
      (event : RawEvent) (tr : Trace) {r : Report}
      → ((lookup : FingerprintLookup)
          → engine.fingerprint_lookup ≡ some lookup
          → (at : Trace) (key fingerprint : Text) (since : ℕ) (c : Report)
          → lookup at key fingerprint since ≡ some (some c)
          → IsSoundReport c)
      → (diagnose world codec patterns unmarshal engine event tr).0 ≡ ok r
      → IsSoundReport r
  unfolding diagnose
  diagnose-IsSoundReport event tr h g = diagnose_project_sound _ event _ tr h g
