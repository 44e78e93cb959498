-- ===== src/Scheduler/Work/Settled.antt =====
-- scheduler/scheduler.go, processTask and safeProcessTask: a task ends once, and is counted once.
use amp_sentinel.Prelude.{
  ℕ, zero, suc, ◌+◌, ◌≡◌, ◌⊎◌, inl, inr, refl, ap, ◌&&◌, Bool, true, false, List, [], ◌∷◌, any, ltb,
  Bool-cases,
}
use amp_sentinel.Prelude.Text.{Text}
use amp_sentinel.Scheduler.Task.{Task, completed, failed}
use amp_sentinel.Scheduler.Work.{
  Outcome, succeeds, errs, panics, Attempt, Stats, Processed, complete, fail, called, record_error,
  settle, attempts, process_task, recover, safe_process_task,
}

abbrev pub is_success : Outcome → Bool
is_success succeeds = true
is_success (errs e) = false
is_success (panics e) = false

abbrev pub is_panic : Outcome → Bool
is_panic succeeds = false
is_panic (errs e) = false
is_panic (panics e) = true

module _ (world : ℕ → Attempt) where
  -- One of the calls succeeded; one of them panicked.
  abbrev pub some_success : List ℕ → Bool
  some_success = any (λ n. is_success (world n).outcome)

  abbrev pub some_panic : List ℕ → Bool
  some_panic = any (λ n. is_panic (world n).outcome)

  -- A run from the counters `c` has counted its task once: as completed, as failed, or not yet, if it panicked.
  data IsCounted (c : Stats) (r : Processed) : Type 0 where
    counted_done :
        r.panic ≡ []
        → r.task.status ≡ completed
        → some_success r.calls ≡ true
        → some_panic r.calls ≡ false
        → r.stats ≡ record c { done = c.done + 1 }
        → IsCounted c r
    counted_wrong :
        r.panic ≡ []
        → r.task.status ≡ failed
        → some_success r.calls ≡ false
        → r.stats ≡ record c { gone_wrong = c.gone_wrong + 1 }
        → IsCounted c r
    not_counted :
        (e : Text) → r.panic ≡ e ∷ [] → some_success r.calls ≡ false → r.stats ≡ c → IsCounted c r

  failed_before :
      (n : ℕ) (c : Stats) (r : Processed) (e : Text)
      → (world n).outcome ≡ errs e
      → IsCounted c r
      → IsCounted c (called n r)
  unfolding called
  failed_before n c r e o (counted_done p q a b s) = counted_done p q (rw o a) (rw o b) s
  failed_before n c r e o (counted_wrong p q a s) = counted_wrong p q (rw o a) s
  failed_before n c r e o (not_counted f p a s) = not_counted f p (rw o a) s

  fail-IsCounted : (t : Task) (now : ℕ) (c : Stats) → IsCounted c (fail t now c)
  unfolding fail
  fail-IsCounted t now c = counted_wrong refl refl refl refl

  settle-IsCounted :
      (o : Outcome) (n : ℕ) (t : Task) (c : Stats) (rest : Task → Processed)
      → (world n).outcome ≡ o
      → ((u : Task) → IsCounted c (rest u))
      → IsCounted c (settle o (world n) n t c rest)
  unfolding settle
  settle-IsCounted succeeds n t c rest h f =
      unfold complete called in counted_done refl refl (rw h refl) (rw h refl) refl
  settle-IsCounted (errs e) n t c rest h f =
      failed_before n c _ e h (elim (Bool-cases (world n).cancelled_after) [
        | inl b ↦ rw b (fail-IsCounted (record_error t n e) (world n).ends_at c)
        | inr b ↦ rw b (f (record_error t n e))
      ])
  settle-IsCounted (panics e) n t c rest h f = not_counted e refl (rw h refl) refl

  attempts-IsCounted :
      (last k n : ℕ) (t : Task) (c : Stats) → IsCounted c (attempts world last k n t c)
  unfolding attempts
  attempts-IsCounted last zero n t c = fail-IsCounted t last c
  attempts-IsCounted last (suc k) n t c =
      elim (Bool-cases (ltb 0 n && (world n).cancelled_before)) [
        | inl b ↦ rw b (fail-IsCounted _ (world n).begins_at c)
        | inr b ↦ rw b (
            settle-IsCounted (world n).outcome n _ c _ refl
              (λ u. attempts-IsCounted last k (n + 1) u c))
      ]

-- Whatever the world does, a worker ends a task as completed or as failed, and counts it exactly once, in the
-- counter of that status: as completed exactly if one of the calls of the diagnosis function succeeded, and then none
-- of them panicked; so a task with a call that panics fails, and is counted as a failure.
pub safe_process_task-counts :
    (world : ℕ → Attempt) (last : ℕ) (t : Task) (c : Stats)
    → ((safe_process_task world last t c).task.status ≡ completed
        × (safe_process_task world last t c).stats ≡ record c { done = c.done + 1 }
        × some_success world (safe_process_task world last t c).calls ≡ true
        × some_panic world (safe_process_task world last t c).calls ≡ false)
      ⊎ ((safe_process_task world last t c).task.status ≡ failed
          × (safe_process_task world last t c).stats ≡ record c { gone_wrong = c.gone_wrong + 1 }
          × some_success world (safe_process_task world last t c).calls ≡ false)
unfolding safe_process_task process_task recover
safe_process_task-counts world last t c =
    elim (attempts-IsCounted world last (t.max_retries + 1) 0 t c) [
      | counted_done p q a b s ↦ rw p (inl (q, s, a, b))
      | counted_wrong p q a s ↦ rw p (inr (q, s, a))
      | not_counted e p a s ↦
          rw p (inr (refl, ap (λ (x : Stats). record x { gone_wrong = x.gone_wrong + 1 }) s, a))
    ]
