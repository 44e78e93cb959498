-- ===== src/Intake/Handler/Submit.antt =====
-- intake/handler.go, submitEvent and processEvent: what becomes of an event, and of the same event sent again.
use amp_sentinel.Prelude.{
  ℕ, ◌≡◌, ◌≢◌, ◌≤◌, ◌↔◌, refl, sym, ap, ◌∙◌, Bool, true, false, [], ◌∷◌, length, ◌⊎◌, inl, inr,
  none, some, arith, Bool-cases, Option-cases,
}
use amp_sentinel.Prelude.Int.{ℤ, pos, ltb_ℤ}
use amp_sentinel.Prelude.Text.{Text, text_eq_refl, text_eq_iff, is_empty}
use amp_sentinel.Intake.Event.{
  RawEvent, critical, warning, info, severity_priority, is_valid_severity,
}
use amp_sentinel.Intake.Clock.{has_passed}
use amp_sentinel.Intake.Dedup.{
  DedupEntry, DedupTable, store, compare_and_swap, holds, decide, check_dedup_with_window,
}
use amp_sentinel.Intake.RateLimit.{check_rate_limit}
use amp_sentinel.Intake.Handler.{
  HandlerConfig, State, World, dedup_key, dedup_window_of, deduplicated, submit_event, Reply,
  queued, reply_of, too_large, is_unknown_project, meets_min_severity, refusal, submit_unless,
  process_event, fill_defaults, with_title,
}

-- The fingerprint's entry after a check that lets its event through.
check_stores :
    (t : DedupTable) (k : Text) (window : ℤ) (now later : ℕ) (between : DedupTable → DedupTable)
    → (check_dedup_with_window t k window now later between).1 ≡ true
    → (check_dedup_with_window t k window now later between).0 k
      ≡ some (record { at = now; window = window })
unfolding check_dedup_with_window decide compare_and_swap store
check_stores t k window now later between p = elim (Option-cases (t k)) [
  | inl e ↦ rw (e, text_eq_refl k) refl
  | inr (d, e) ↦ elim (Bool-cases (has_passed d.at window later)) [
    | inl b ↦ elim (Bool-cases (holds (between t k) d)) [
      | inl s ↦ rw (e, b, s, text_eq_refl k) refl
      | inr s ↦ absurd (ground (arith, rw (e, b, s) at p))
    ]
    | inr b ↦ absurd (ground (arith, rw (e, b) at p))
  ]
]

-- A check of a fingerprint whose entry's window is not over refuses it, and changes nothing.
check_refuses :
    (t : DedupTable) (k : Text) (window : ℤ) (now later : ℕ) (between : DedupTable → DedupTable)
    (e : DedupEntry)
    → t k ≡ some e
    → has_passed e.at window later ≡ false
    → check_dedup_with_window t k window now later between ≡ (t, false)
unfolding check_dedup_with_window decide
check_refuses t k window now later between e p b = rw (p, b) refl

submit_refused :
    (cfg : HandlerConfig) (w : World) (s : State) (e : RawEvent)
    → check_dedup_with_window s.dedup
        (dedup_key cfg w e)
        (dedup_window_of cfg w e)
        w.dedup_now
        w.dedup_later
        w.between
      ≡ (s.dedup, false)
    → submit_event cfg w s e ≡ (s, inl deduplicated)
unfolding submit_event
submit_refused cfg w s e p = rw p refl

submit_dedup :
    (cfg : HandlerConfig) (w : World) (s : State) (e : RawEvent)
    → (submit_event cfg w s e).0.dedup
      ≡ (check_dedup_with_window s.dedup
          (dedup_key cfg w e)
          (dedup_window_of cfg w e)
          w.dedup_now
          w.dedup_later
          w.between).0
unfolding submit_event
submit_dedup cfg w s e = ground arith

-- When an event has passed the duplicate check, whatever came of it afterwards (a task, the rate limit's refusal, or
-- the scheduler's), an event with the same fingerprint that is submitted before the window is over is answered as a
-- duplicate, and changes nothing.
pub submit_event_again :
    (cfg : HandlerConfig) (v w : World) (s : State) (d e : RawEvent)
    → (check_dedup_with_window s.dedup
        (dedup_key cfg v d)
        (dedup_window_of cfg v d)
        v.dedup_now
        v.dedup_later
        v.between).1
      ≡ true
    → dedup_key cfg w e ≡ dedup_key cfg v d
    → has_passed v.dedup_now (dedup_window_of cfg w e) w.dedup_later ≡ false
    → submit_event cfg w (submit_event cfg v s d).0 e
      ≡ ((submit_event cfg v s d).0, inl deduplicated)
submit_event_again cfg v w s d e ok same_key early =
    let t = (submit_event cfg v s d).0 in
    let stored =
      check_stores s.dedup (dedup_key cfg v d) (dedup_window_of cfg v d) v.dedup_now v.dedup_later
        v.between ok in
    let found : t.dedup (dedup_key cfg w e)
        ≡ some (record { at = v.dedup_now; window = dedup_window_of cfg v d }) =
      ap t.dedup same_key ∙ ap (λ u. u (dedup_key cfg v d)) (submit_dedup cfg v s d) ∙ stored in
    submit_refused cfg w t e (
      check_refuses t.dedup (dedup_key cfg w e) (dedup_window_of cfg w e) w.dedup_now w.dedup_later
        w.between _ found early)

reply_of-queued :
    (id task_id : Text) (r : Text ⊎ Text) → reply_of id r ≡ queued id task_id → r ≡ inr task_id
unfolding reply_of
reply_of-queued id task_id (inr t) p = ground (arith, p)
reply_of-queued id task_id (inl m) p = absurd (ground (arith, p))

-- The event has a project that is registered, where projects are checked, and one of the three severities, no lower than
-- the least; its payload is no larger than the maximum, where there is one.
pub record IsWellFormed (cfg : HandlerConfig) (w : World) (e : RawEvent) : Type 0 where
  pub has_key : e.project_key ≢ []
  pub severity : (e.severity ≡ critical) ⊎ (e.severity ≡ warning) ⊎ (e.severity ≡ info)
  pub fits :
      (ltb_ℤ (pos 0) cfg.max_payload_size ≡ false)
      ⊎ (ltb_ℤ cfg.max_payload_size (pos (length e.payload)) ≡ false)
  pub known : (f : Text → Bool) → w.validate_project ≡ some f → f e.project_key ≡ true
  pub severe : severity_priority cfg.min_severity ≤ severity_priority e.severity

-- It is well formed, and passes the duplicate check and the rate limit.
pub record Admitted (cfg : HandlerConfig) (w : World) (s : State) (e : RawEvent) : Type 0 where
  pub well_formed : IsWellFormed cfg w e
  pub first :
      (check_dedup_with_window s.dedup
        (dedup_key cfg w (with_title w e))
        (dedup_window_of cfg w (with_title w e))
        w.dedup_now
        w.dedup_later
        w.between).1
      ≡ true
  pub within : (check_rate_limit s.shards cfg.rate_limit e.project_key w.rate_now).1 ≡ true

no_key : (s : Text) → (is_empty s ≡ false) ↔ (s ≢ [])
no_key [] = (λ h. absurd (ground (arith, h)), λ h. absurd (h refl))
no_key (c ∷ s) = (λ h e. ground (arith, e), λ h. refl)

is_valid_severity_iff :
    (s : Text) → (is_valid_severity s ≡ true) ↔ ((s ≡ critical) ⊎ (s ≡ warning) ⊎ (s ≡ info))
unfolding is_valid_severity
is_valid_severity_iff s =
    ground (arith, text_eq_iff s critical, text_eq_iff s warning, text_eq_iff s info)

known_iff :
    (w : World) (key : Text)
    → (is_unknown_project w key ≡ false)
      ↔ ((f : Text → Bool) → w.validate_project ≡ some f → f key ≡ true)
unfolding is_unknown_project
known_iff w key = elim (Option-cases w.validate_project) [
  | inl e ↦ (λ h f g. absurd (ground (arith, e, g)), λ h. rw e refl)
  | inr (f, e) ↦ (
    λ h g same.
        let equal : f ≡ g = some_test (sym e ∙ same) in
        ap (λ t. t key) (sym equal) ∙ ground (arith, rw e at h),
    λ h. let ok = h f e in rw (e, ok) refl,
  )
]
  where
    some_test : {f g : Text → Bool} → some f ≡ some g → f ≡ g
    some_test e = ground (arith, e)

-- Nothing is refused before submitEvent exactly if the event is well formed.
refusal_iff :
    (cfg : HandlerConfig) (w : World) (e : RawEvent)
    → (refusal cfg w e ≡ none) ↔ IsWellFormed cfg w e
unfolding refusal too_large meets_min_severity
refusal_iff cfg w e =
    let key = no_key e.project_key in
    let valid = is_valid_severity_iff e.severity in
    let known = known_iff w e.project_key in
    (
      λ h. record {
        has_key = key.0 (ground (arith, h));
        severity = valid.0 (ground (arith, h));
        fits = ground (arith, h);
        known = known.0 (ground (arith, h));
        severe = ground (arith, h);
      },
      λ v. ground (arith, key.1 v.has_key, valid.1 v.severity, v.fits, known.1 v.known, v.severe),
    )

submit_result :
    (cfg : HandlerConfig) (w : World) (s : State) (e : RawEvent) (task_id : Text)
    → (submit_event cfg w s e).1 ≡ inr task_id
    → ((check_dedup_with_window s.dedup
          (dedup_key cfg w e)
          (dedup_window_of cfg w e)
          w.dedup_now
          w.dedup_later
          w.between).1
        ≡ true)
      × ((check_rate_limit s.shards cfg.rate_limit e.project_key w.rate_now).1 ≡ true)
      × (w.on_event e ≡ inr task_id)
unfolding submit_event
submit_result cfg w s e task_id p = ground (arith, p)

submit_accepted :
    (cfg : HandlerConfig) (w : World) (s : State) (e : RawEvent) (task_id : Text)
    → (check_dedup_with_window s.dedup
        (dedup_key cfg w e)
        (dedup_window_of cfg w e)
        w.dedup_now
        w.dedup_later
        w.between).1
      ≡ true
    → (check_rate_limit s.shards cfg.rate_limit e.project_key w.rate_now).1 ≡ true
    → w.on_event e ≡ inr task_id
    → (submit_event cfg w s e).1 ≡ inr task_id
unfolding submit_event
submit_accepted cfg w s e task_id p q r = rw (p, q) r

refused-queued :
    (cfg : HandlerConfig) (w : World) (e : RawEvent) (r : Reply) (id task_id : Text)
    → refusal cfg w e ≡ some r
    → r ≢ queued id task_id
unfolding refusal
refused-queued cfg w e r id task_id p q = ground (arith, p, q)

-- An event is answered as queued, under a task id, exactly when the scheduler accepts it under that id and it passes
-- every check: it has a project, registered where that is checked, one of the three severities, no lower than the least,
-- and a payload within the maximum, where there is one; and it is no duplicate, and within the rate limit.
pub process_event-queued_iff :
    (cfg : HandlerConfig) (w : World) (s : State) (event : RawEvent) (task_id : Text)
    → ((process_event cfg w s event).1 ≡ queued (fill_defaults w event).id task_id) ↔ (
        Admitted cfg w s (fill_defaults w event)
        × (w.on_event (with_title w (fill_defaults w event)) ≡ inr task_id))
unfolding process_event submit_unless with_title reply_of
process_event-queued_iff cfg w s event task_id =
    let e = fill_defaults w event in
    elim (Option-cases (refusal cfg w e)) [
      | inl p ↦ rw p (
        (λ q.
            let (first, within, accepted) =
              submit_result cfg w s (with_title w e) task_id
                (reply_of-queued e.id task_id (submit_event cfg w s (with_title w e)).1 q) in
            (
              record { well_formed = (refusal_iff cfg w e).0 p; first = first; within = within },
              accepted,
            )),
        (λ (a, accepted).
            ap (reply_of e.id)
              (submit_accepted cfg w s (with_title w e) task_id a.first a.within accepted)),
      )
      | inr (r, p) ↦ rw p (
        (λ q. absurd (refused-queued cfg w e r e.id task_id p q)),
        (λ (a, accepted). absurd (ground (arith, p, (refusal_iff cfg w e).1 a.well_formed))),
      )
    ]
