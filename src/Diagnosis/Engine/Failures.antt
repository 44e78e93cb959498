-- ===== src/Diagnosis/Engine/Failures.antt =====
-- diagnosis/engine.go, Diagnose: which failure gives which error, and when a report counts as tainted.
use amp_sentinel.Prelude.{
  ◌≡◌, refl, sym, ap, ◌∙◌, ◌↔◌, inl, inr, false, ◌∷◌, Option, none, some, arith, Option-cases,
  Bool-cases,
}
use mathlib.Core.Path.{subst}
use amp_sentinel.Prelude.Text.{Text}
use amp_sentinel.Intake.Event.{RawEvent}
use amp_sentinel.Intake.Fingerprint.{Codec}
use amp_sentinel.Amp.Types.{ExecuteResult}
use amp_sentinel.Amp.Client.{ExecuteError}
use amp_sentinel.Effects.{lock, World, Trace}
use amp_sentinel.Project.Registry.{Project}
use amp_sentinel.Project.Sources.{prepare, has_changes}
use amp_sentinel.Diagnosis.Paths.{FilePath}
use amp_sentinel.Diagnosis.Types.{DiagnosisJson, QualityScore}
use amp_sentinel.Diagnosis.Report.{Report}
use amp_sentinel.Diagnosis.Payload.{Patterns}
use amp_sentinel.Diagnosis.Assembly.{
  Run, blank_report, failed_report, structured_report, heuristic_report, build_report,
}
use amp_sentinel.Diagnosis.Engine.{Engine, Seen, source_prepare, amp_execution, ok, err}
use amp_sentinel.Diagnosis.Engine.Steps.{commit_or_empty, mark_tainted, check_tainted}
use amp_sentinel.Diagnosis.Engine.Diagnose.{
  run_in_checkout, judge, judge_run, diagnose_source, diagnose_anew,
}

same_path : (p q : FilePath) → some p ≡ some q → p ≡ q
same_path p q e = ground (arith, e)

ok_report : {r s : Report} → ok r ≡ ok s → r ≡ s
ok_report e = ground (arith, e)

module _ (world : World) (codec : Codec) (patterns : Patterns)
    (unmarshal : Text → Option DiagnosisJson) (engine : Engine) (event : RawEvent)
    (proj : Project) where
  judge_run_fails :
      (fingerprint hash : Text) (src_dir : FilePath)
      (ran : Option ExecuteError × ExecuteResult × Seen) (tr : Trace) (e : ExecuteError)
      → ((judge_run world codec patterns unmarshal engine event proj fingerprint hash src_dir ran
            tr).0
          ≡ err (amp_execution e))
        ↔ (ran.0 ≡ some e)
  unfolding judge_run judge
  judge_run_fails fingerprint hash src_dir (some x, result, seen) tr e = ground arith
  judge_run_fails fingerprint hash src_dir (none, result, seen) tr e = ground arith

  judge_run_prepared :
      (fingerprint hash : Text) (src_dir : FilePath)
      (ran : Option ExecuteError × ExecuteResult × Seen) (tr : Trace)
      → ¬ (
          (judge_run world codec patterns unmarshal engine event proj fingerprint hash src_dir ran
            tr).0
          ≡ err source_prepare)
  unfolding judge_run judge
  judge_run_prepared fingerprint hash src_dir (some x, result, seen) tr = ground arith
  judge_run_prepared fingerprint hash src_dir (none, result, seen) tr = ground arith

  -- The run of the agent in the checkout that a preparation gave, from the effects after it.
  abbrev pub run_after : FilePath → Trace → Option ExecuteError
  run_after src_dir tr =
      (run_in_checkout world codec patterns unmarshal engine event proj src_dir
        (commit_or_empty world engine proj.key tr).1).0.0

  diagnose_source_errors :
      (o : Option FilePath) (fingerprint : Text) (tr : Trace)
      → let out =
          (diagnose_source world codec patterns unmarshal engine o event proj fingerprint tr).0 in
        ((out ≡ err source_prepare) ↔ (o ≡ none))
        × ((e : ExecuteError)
            → (out ≡ err (amp_execution e))
              ↔ ((src : FilePath) × (o ≡ some src) × (run_after src tr ≡ some e)))
  unfolding diagnose_source
  diagnose_source_errors none fingerprint tr =
      (ground arith, λ e. (λ h. absurd (ground (arith, h)), λ w. absurd (ground (arith, w.1))))
  diagnose_source_errors (some src) fingerprint tr =
      let (hash, ready) = commit_or_empty world engine proj.key tr in
      let (ran, after) =
        run_in_checkout world codec patterns unmarshal engine event proj src ready in
      let fails = judge_run_fails fingerprint hash src ran after in
      (
        (
          λ h. absurd (judge_run_prepared fingerprint hash src ran after h),
          λ h. absurd (ground (arith, h)),
        ),
        λ e. (
          λ h. (src, refl, (fails e).0 h),
          λ w. (fails e).1 (subst (λ s. run_after s tr ≡ some e) (sym (same_path src w.0 w.1)) w.2),
        ),
      )

  -- A diagnosis that is made anew ends in the error of the preparation exactly when preparing the checkout fails, and in that of the
  -- agent with its cause exactly when the checkout is prepared and the agent's run there ends in that error.
  pub diagnose_anew_errors :
      (fingerprint : Text) (tr : Trace)
      → let out =
          (diagnose_anew world codec patterns unmarshal engine event proj fingerprint tr).0 in
        let (prepared, ready) = prepare world engine.base_dir proj (lock proj.key ∷ tr) in
        ((out ≡ err source_prepare) ↔ (prepared ≡ none))
        × ((e : ExecuteError)
            → (out ≡ err (amp_execution e))
              ↔ ((src : FilePath) × (prepared ≡ some src) × (run_after src ready ≡ some e)))
  unfolding diagnose_anew
  diagnose_anew_errors fingerprint tr = diagnose_source_errors _ fingerprint _

  build_report-tainted :
      (run : Run) (o : Option (DiagnosisJson × QualityScore))
      → (build_report patterns.to_lower run o).tainted ≡ run.tainted
  unfolding build_report failed_report structured_report heuristic_report blank_report
  build_report-tainted run none = ground arith
  build_report-tainted run (some (d, q)) = ground arith

  check_tainted-has_changes :
      (key : Text) (tr : Trace)
      → ((check_tainted world engine key tr).0 ≡ false)
        ↔ ((has_changes world engine.base_dir key tr).0 ≡ some false)
  unfolding check_tainted mark_tainted
  check_tainted-has_changes key tr =
      elim (Option-cases (has_changes world engine.base_dir key tr).0) [
        | inl e ↦ rw e (ground arith)
        | inr (b, e) ↦ elim (Bool-cases b) [
          | inl t ↦ rw (e, t) (ground arith)
          | inr f ↦ rw (e, f) (ground arith)
        ]
      ]

  -- The report of a run is untainted exactly when the check of the checkout succeeds and finds no change: a check that fails taints it.
  pub judge-tainted :
      (fingerprint hash : Text) (src_dir : FilePath) (result : ExecuteResult) (seen : Seen)
      (tr : Trace) (r : Report)
      → (judge world codec patterns unmarshal engine event proj fingerprint hash src_dir result seen
          tr).0
        ≡ ok r
      → (r.tainted ≡ false) ↔ ((has_changes world engine.base_dir proj.key tr).0 ≡ some false)
  unfolding judge
  judge-tainted fingerprint hash src_dir result seen tr r h =
      let same = ap (λ (x : Report). x.tainted) (ok_report h) in
      subst (λ b. (b ≡ false) ↔ ((has_changes world engine.base_dir proj.key tr).0 ≡ some false))
        (sym (build_report-tainted _ _) ∙ same) (check_tainted-has_changes proj.key tr)
