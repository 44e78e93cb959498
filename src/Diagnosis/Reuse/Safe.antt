-- ===== src/Diagnosis/Reuse/Safe.antt =====
-- diagnosis/fingerprint.go, canReuse and buildReusedReport: when a report is reused, and as what.
use mathlib.Core.List.{append-nil}
use amp_sentinel.Prelude.{
  ℕ, ◌≤◌, ◌≡◌, ◌≢◌, ◌↔◌, ◌⊎◌, refl, sym, Bool, true, false, List, [], ◌∷◌, ◌++◌, some, arith, any,
  ◌||◌,
}
use amp_sentinel.Prelude.Text.{Text, text_eq, text_eq_iff, is_empty}
use amp_sentinel.Intake.Event.{RawEvent, critical}
use amp_sentinel.Diagnosis.Types.{QualityScore, flag_hallucinated_file, flag_hallucinated_line}
use amp_sentinel.Diagnosis.Report.{Report}
use amp_sentinel.Diagnosis.Reuse.{
  may_reuse, can_reuse, commit_match, is_inconclusive, is_hallucination, flag_reused_stale_commit,
  build_reused_report, with_flags,
}

is_empty_iff : (s : Text) → (is_empty s ≡ true) ↔ (s ≡ [])
is_empty_iff [] = ground arith
is_empty_iff (c ∷ s) = ground arith

-- What a report must be for any reuse.
pub record IsReusable (r : Report) (min_score : ℕ) : Type 0 where
  pub untainted : r.tainted ≡ false
  pub conclusive : is_inconclusive r.structured_result ≡ false
  pub good : min_score ≤ r.quality_score.normalized
  pub no_hallucination : any is_hallucination r.quality_score.flags ≡ false

-- A cached report is reused with some flags exactly if it is untainted, not inconclusive, good enough and free of
-- hallucination flags, and either one of the two commits is not known or they are equal, and there is no flag; or both
-- are known and differ, the event is not critical, and the flag is that of a stale commit.
pub can_reuse_iff :
    (r : Report) (current severity : Text) (min_score : ℕ) (flags : List Text)
    → (can_reuse (some r) current severity min_score ≡ some flags) ↔ (
        IsReusable r min_score
        × ((((current ≡ []) ⊎ (r.commit_hash ≡ []) ⊎ (current ≡ r.commit_hash)) × (flags ≡ []))
            ⊎ ((current ≢ [])
                × (r.commit_hash ≢ [])
                × (current ≢ r.commit_hash)
                × (severity ≢ critical)
                × (flags ≡ flag_reused_stale_commit ∷ []))))
unfolding can_reuse may_reuse commit_match
can_reuse_iff r current severity min_score flags = ground (
  arith,
  is_empty_iff current,
  is_empty_iff r.commit_hash,
  text_eq_iff current r.commit_hash,
  text_eq_iff severity critical,
)

stale_is_no_hallucination : is_hallucination flag_reused_stale_commit ≡ false
unfolding is_hallucination flag_reused_stale_commit flag_hallucinated_file flag_hallucinated_line
    text_eq
stale_is_no_hallucination = refl

any-append : (p : Text → Bool) (xs ys : List Text) → any p (xs ++ ys) ≡ any p xs || any p ys
any-append p [] ys = refl
any-append p (x ∷ xs) ys = ground (arith, any-append p xs ys)

pub with_flags-fields :
    (q : QualityScore) (fs : List Text)
    → ((with_flags q fs).normalized ≡ q.normalized) × ((with_flags q fs).flags ≡ q.flags ++ fs)
unfolding with_flags
with_flags-fields q [] = (refl, sym (append-nil q.flags))
with_flags-fields q (f ∷ fs) = (refl, refl)

added_flags_harmless :
    (r : Report) (current severity : Text) (min_score : ℕ) (flags : List Text)
    → can_reuse (some r) current severity min_score ≡ some flags
    → any is_hallucination flags ≡ false
added_flags_harmless r current severity min_score flags h =
    let k = (can_reuse_iff r current severity min_score flags).0 h in
    ground (arith, stale_is_no_hallucination)

-- The report made from one that may be reused meets the conditions for reuse itself; it has the flags of the old one
-- and the added ones, names the task that it comes from, and keeps the verdict and the final confidence.
pub build_reused_report-IsReusable :
    (r : Report) (event : RawEvent) (name current fingerprint severity : Text) (min_score now : ℕ)
    (flags : List Text)
    → can_reuse (some r) current severity min_score ≡ some flags
    → let b = build_reused_report r event name current fingerprint flags now in
      IsReusable b min_score
      × (b.quality_score.flags ≡ r.quality_score.flags ++ flags)
      × (b.reused_from_id ≡ r.task_id)
      × (b.has_issue ≡ r.has_issue)
      × (b.final_confidence ≡ r.final_confidence)
unfolding build_reused_report
build_reused_report-IsReusable r event name current fingerprint severity min_score now flags h =
    let k = (can_reuse_iff r current severity min_score flags).0 h in
    let kept = with_flags-fields r.quality_score flags in
    ground (
      arith,
      added_flags_harmless r current severity min_score flags h,
      any-append is_hallucination r.quality_score.flags flags,
    )
