-- ===== src/Store/JsonStore/Recent.antt =====
-- store/json.go, FindRecentReportByFingerprint: the report that it finds is the latest.
use mathlib.Core.Path.{subst}
use mathlib.Core.List.{Mem, mem-cons_self, mem-cons_of_mem}
use amp_sentinel.Prelude.{
  ℕ, ◌≤◌, ◌≡◌, refl, ap, sym, ◌∙◌, inl, inr, ◌⊎◌, Bool, true, not, ◌&&◌, ◌||◌, List, [], ◌∷◌, none,
  some, ltb, all, arith, Bool-cases,
}
use amp_sentinel.Prelude.Text.{Text}
use amp_sentinel.Store.Records.{DiagnosisReport}
use amp_sentinel.Store.JsonStore.{
  JsonData, is_candidate, is_later, best_of, find_recent_report_by_fingerprint,
}

here_at : {r x : DiagnosisReport} {rs : List DiagnosisReport} → r ≡ x → Mem r (x ∷ rs)
here_at {r = r} {x = x} {rs = rs} e = subst (λ y. Mem y (x ∷ rs)) (sym e) mem-cons_self

module _ (project fingerprint : Text) (since : ℕ) where
  -- `x` is no candidate, or no later than `r`.
  unfoldable pub is_no_better : DiagnosisReport → DiagnosisReport → Bool
  is_no_better r x =
      not (is_candidate project fingerprint since x) || not (ltb r.diagnosed_at x.diagnosed_at)

  -- `r` is the outcome of a search that had `b` and then saw `rs`.
  record Improved (b : DiagnosisReport) (rs : List DiagnosisReport) (r : DiagnosisReport)
      : Type 0 where
    found : best_of project fingerprint since (some b) rs ≡ some r
    origin : (r ≡ b) ⊎ ((is_candidate project fingerprint since r ≡ true) × Mem r rs)
    no_older : b.diagnosed_at ≤ r.diagnosed_at
    latest : all (is_no_better r) rs ≡ true

  from_some :
      (b : DiagnosisReport) (rs : List DiagnosisReport) → (r : DiagnosisReport) × Improved b rs r
  unfolding best_of is_later is_no_better
  from_some b [] =
      (b, record { found = refl; origin = inl refl; no_older = omega arith; latest = refl })
  from_some b (x ∷ rs) =
      elim (Bool-cases
        (is_candidate project fingerprint since x && ltb b.diagnosed_at x.diagnosed_at)) [
          | inl c ↦
              let (r, i) = from_some x rs in
              (
                r,
                record {
                  found = rw c i.found;
                  origin = elim i.origin [
                    | inl e ↦ inr (
                      ap (is_candidate project fingerprint since) e ∙ ground (arith, c),
                      here_at e,
                    )
                    | inr (ok, m) ↦ inr (ok, mem-cons_of_mem x m)
                  ];
                  no_older = ground (arith, c, i.no_older);
                  latest = ground (arith, i.no_older, i.latest);
                },
              )
          | inr c ↦
              let (r, i) = from_some b rs in
              (
                r,
                record {
                  found = rw c i.found;
                  origin = elim i.origin [
                    | inl e ↦ inl e
                    | inr (ok, m) ↦ inr (ok, mem-cons_of_mem x m)
                  ];
                  no_older = i.no_older;
                  latest = ground (arith, c, i.no_older, i.latest);
                },
              )
        ]

  from_none :
      (rs : List DiagnosisReport)
      → ((best_of project fingerprint since none rs ≡ none)
          × (all (λ x. not (is_candidate project fingerprint since x)) rs ≡ true))
        ⊎ ((r : DiagnosisReport) × (best_of project fingerprint since none rs ≡ some r)
            × (is_candidate project fingerprint since r ≡ true)
            × Mem r rs
            × (all (is_no_better r) rs ≡ true))
  unfolding best_of is_later is_no_better
  from_none [] = inl (refl, refl)
  from_none (x ∷ rs) = elim (Bool-cases (is_candidate project fingerprint since x)) [
    | inl c ↦
        let (r, i) = from_some x rs in
        inr (
          r,
          rw c i.found,
          elim i.origin [
            | inl e ↦ ap (is_candidate project fingerprint since) e ∙ c
            | inr (ok, m) ↦ ok
          ],
          elim i.origin [ inl e ↦ here_at e | inr (ok, m) ↦ mem-cons_of_mem x m ],
          ground (arith, i.no_older, i.latest),
        )
    | inr c ↦ elim (from_none rs) [
      | inl (e, none_there) ↦ inl (rw c e, rw c none_there)
      | inr (r, e, ok, m, best) ↦ inr (r, rw c e, ok, mem-cons_of_mem x m, ground (arith, c, best))
    ]
  ]

  -- The search finds a report exactly if there is an original one of the project and the fingerprint that is not too
  -- old; it is then one of these, and none of them is later.
  pub find_recent_report_by_fingerprint_latest :
      (d : JsonData)
      → ((find_recent_report_by_fingerprint d project fingerprint since ≡ none)
          × (all (λ x. not (is_candidate project fingerprint since x)) d.reports ≡ true))
        ⊎ ((r : DiagnosisReport) × (find_recent_report_by_fingerprint d project fingerprint since
              ≡ some r)
            × (is_candidate project fingerprint since r ≡ true)
            × Mem r d.reports
            × (all (is_no_better r) d.reports ≡ true))
  unfolding find_recent_report_by_fingerprint
  find_recent_report_by_fingerprint_latest d = from_none d.reports
