-- ===== src/Main/Task/Sound.antt =====
-- main.go with diagnosis/engine.go and store/json.go: the reports of the store stay sound from attempt to attempt.
use mathlib.Core.Path.{subst}
use amp_sentinel.Prelude.{
  ℕ, ◌≤◌, ◌≡◌, ◌≢◌, refl, sym, ap, ◌∙◌, inl, inr, Bool, true, false, ◌&&◌, List, [], ◌∷◌, Option,
  none, some, arith, Bool-cases, if◌then◌else◌,
}
use amp_sentinel.Prelude.Text.{Text, text_eq}
use amp_sentinel.Intake.Event.{RawEvent}
use amp_sentinel.Intake.Fingerprint.{Codec}
use amp_sentinel.Effects.{World, Trace}
use amp_sentinel.Project.Registry.{Project, lookup_project}
use amp_sentinel.Diagnosis.Types.{DiagnosisJson, QualityScore}
use amp_sentinel.Diagnosis.Report.{Report}
use amp_sentinel.Diagnosis.Payload.{Patterns}
use amp_sentinel.Diagnosis.Engine.{Engine, FingerprintLookup, DiagnoseError, Outcome, ok, err}
use amp_sentinel.Diagnosis.Engine.Reports.{IsBacked, IsSoundReport}
use amp_sentinel.Diagnosis.Engine.Sound.{diagnose-IsSoundReport}
use amp_sentinel.Store.Records.{DiagnosisReport}
use amp_sentinel.Store.Table.{put_record}
use amp_sentinel.Store.JsonStore.{
  JsonData, report_key, is_candidate, is_later, best_of, find_recent_report_by_fingerprint,
}
use amp_sentinel.Main.Reports.{
  JsonLibrary, to_store, restore, restore_found, store_lookup, ReadsBack,
}
use amp_sentinel.Main.Task.{
  new_task, store_task, notify_project, over_store, finish, outcome_of, run_task,
}
use amp_sentinel.Main.Task.Written.{store_task-others, completed-reports, failed-reports}

same_value : {r s : Report} → some (some r) ≡ some (some s) → r ≡ s
same_value e = ground (arith, e)

some_lookup : {k l : FingerprintLookup} → some k ≡ some l → k ≡ l
some_lookup {k} e = ap (λ o. elim o [ none ↦ k | some l ↦ l ]) e

none_is_not : {l : FingerprintLookup} → none ≢ some l
none_is_not e = ground (arith, e)

module _ (json : JsonLibrary) where
  -- What the lookup makes of every stored report is sound.
  abbrev pub AllSound : List DiagnosisReport → Type 0
  AllSound [] = Unit {0}
  AllSound (s ∷ ss) = IsSoundReport (restore json s) × AllSound ss

  put_record-AllSound :
      (ss : List DiagnosisReport) (s : DiagnosisReport)
      → AllSound ss
      → IsSoundReport (restore json s)
      → AllSound (put_record report_key ss s)
  unfolding put_record
  put_record-AllSound [] s all new = (new, tt)
  put_record-AllSound (x ∷ ss) s all new =
      elim (Bool-cases (text_eq (report_key x) (report_key s))) [
        | inl e ↦ rw e (new, all.1)
        | inr e ↦ rw e (all.0, put_record-AllSound ss s all.1 new)
      ]

  abbrev IsSoundFound : Option DiagnosisReport → Type 0
  IsSoundFound none = Unit {0}
  IsSoundFound (some s) = IsSoundReport (restore json s)

  best_of_sound :
      (project fingerprint : Text) (since : ℕ) (best : Option DiagnosisReport)
      (ss : List DiagnosisReport)
      → IsSoundFound best
      → AllSound ss
      → IsSoundFound (best_of project fingerprint since best ss)
  unfolding best_of
  best_of_sound project fingerprint since best [] b all = b
  best_of_sound project fingerprint since best (s ∷ ss) b all =
      best_of_sound project fingerprint since
        (if is_candidate project fingerprint since s && is_later best s then some s else best) ss
        (chosen (is_candidate project fingerprint since s && is_later best s)) all.1
    where
      chosen : (c : Bool) → IsSoundFound (if c then some s else best)
      chosen true = all.0
      chosen false = b

  restore_found_sound :
      (o : Option DiagnosisReport) (c : Report)
      → IsSoundFound o
      → some (restore_found json o) ≡ some (some c)
      → IsSoundReport c
  unfolding restore_found
  restore_found_sound none c h e = absurd (ground (arith, e))
  restore_found_sound (some s) c h e = subst IsSoundReport (same_value e) h

  store_lookup_sound :
      (d : JsonData) (at : Trace) (key fingerprint : Text) (since : ℕ) (c : Report)
      → AllSound d.reports
      → store_lookup json d at key fingerprint since ≡ some (some c)
      → IsSoundReport c
  unfolding store_lookup find_recent_report_by_fingerprint
  store_lookup_sound d at key fingerprint since c all e =
      restore_found_sound _ c (best_of_sound key fingerprint since none d.reports tt all) e

  restored_score :
      (task_id : Text) (r : Report)
      → ReadsBack json r
      → (restore json (to_store json task_id r)).quality_score ≡ r.quality_score
  unfolding restore to_store
  restored_score task_id r back = back.score

  restored-IsBacked :
      (task_id : Text) (r : Report) (o : Option DiagnosisJson)
      → ReadsBack json r
      → IsBacked o r
      → IsBacked o (restore json (to_store json task_id r))
  unfolding restore to_store
  restored-IsBacked task_id r none back b = ap (λ (q : QualityScore). q.normalized) back.score ∙ b
  restored-IsBacked task_id r (some d) back b = b

  restore-to_store :
      (task_id : Text) (r : Report)
      → ReadsBack json r
      → IsSoundReport r
      → IsSoundReport (restore json (to_store json task_id r))
  unfolding restore to_store
  restore-to_store task_id r back h = record {
    label = h.label;
    final_label = h.final_label;
    score = subst (λ (q : QualityScore). q.normalized ≤ 100) (sym back.score) h.score;
    backed =
        subst (λ o. IsBacked o (restore json (to_store json task_id r))) (sym back.answer)
          (restored-IsBacked task_id r r.structured_result back h.backed);
  }

  notified_sound :
      (notify : Project → Report → Bool) (o : Option Project) (task_id : Text) (r : Report)
      → ReadsBack json r
      → IsSoundReport r
      → IsSoundReport (restore json (to_store json task_id (notify_project notify o r)))
  unfolding notify_project
  notified_sound notify none task_id r back h = restore-to_store task_id r back h
  notified_sound notify (some p) task_id r back h =
      restore-to_store task_id (record r { notified = if notify p r then true else r.notified })
        (record { answer = back.answer; score = back.score })
        (record {
          label = h.label;
          final_label = h.final_label;
          score = h.score;
          backed = same_backed r.structured_result h.backed;
        })
    where
      same_backed :
          (b : Option DiagnosisJson)
          → IsBacked b r
          → IsBacked b (record r { notified = if notify p r then true else r.notified })
      same_backed none k = k
      same_backed (some d) k = k

module _ (world : World) (codec : Codec) (patterns : Patterns) (json : JsonLibrary)
    (engine : Engine) (error_text : DiagnoseError → Text)
    (notify : RawEvent → Project → Report → Bool) where
  over_store-lookup :
      (d : JsonData) (lookup : FingerprintLookup)
      → (over_store json d engine).fingerprint_lookup ≡ some lookup
      → store_lookup json d ≡ lookup
  unfolding over_store
  over_store-lookup d lookup e = elim (Bool-cases engine.fp_config.enabled) [
    | inl b ↦ some_lookup (rw b at e)
    | inr b ↦ absurd (none_is_not (rw b at e))
  ]

  outcome_of_sound :
      (d : JsonData) (event : RawEvent) (tr : Trace) {r : Report}
      → AllSound json d.reports
      → outcome_of world codec patterns json engine error_text notify d event tr ≡ ok r
      → IsSoundReport r
  unfolding outcome_of
  outcome_of_sound d event tr all e =
      diagnose-IsSoundReport world codec patterns json.unmarshal_diagnosis
        (over_store json d engine) event tr
        (λ lookup found at key fingerprint since c g.
          store_lookup_sound json d at key fingerprint since c all
            (ap (λ l. l at key fingerprint since) (over_store-lookup d lookup found) ∙ g))
        e

  finish-AllSound :
      (o : Outcome) (task_id : Text) (event : RawEvent) (start end : ℕ) (d : JsonData)
      → AllSound json d.reports
      → ((r : Report) → o ≡ ok r → IsSoundReport r × ReadsBack json r)
      → AllSound json
          (finish world codec patterns json engine error_text notify o
            (new_task task_id event start)
            event
            end
            d).0.reports
  unfolding finish
  finish-AllSound (err e) task_id event start end d all h =
      subst (AllSound json)
        (sym (failed-reports error_text e (new_task task_id event start) event end d)) all
  finish-AllSound (ok r) task_id event start end d all h =
      let (good, back) = h r refl in
      let proj = lookup_project engine.registry event.project_key in
      let t = new_task task_id event start in
      let sent = notify_project (notify event) proj r in
      subst (AllSound json) (sym (completed-reports json sent t event end d)) (
        put_record-AllSound json d.reports (to_store json t.id sent) all
          (notified_sound json (notify event) proj t.id r back good))

  -- If every stored report is sound as the lookup of main reads it, and the answer and the score of the report that the engine gives over
  -- this store are read back as they were written, then every stored report is sound after the attempt, whichever way it ends.
  pub run_task-AllSound :
      (task_id : Text) (event : RawEvent) (start end : ℕ) (tr : Trace) (d : JsonData)
      → AllSound json d.reports
      → ((r : Report)
          → outcome_of world codec patterns json engine error_text notify
              (store_task d (new_task task_id event start))
              event
              tr
            ≡ ok r
          → ReadsBack json r)
      → AllSound json
          (run_task world codec patterns json engine error_text notify task_id event start end tr
            d).0.reports
  unfolding run_task
  run_task-AllSound task_id event start end tr d all back =
      let t = new_task task_id event start in
      let kept = subst (AllSound json) (sym (store_task-others d t).1) all in
      finish-AllSound _ task_id event start end (store_task d t) kept
        λ r e. (outcome_of_sound (store_task d t) event tr kept e, back r e)
