-- ===== src/Scheduler/Work/Calls.antt =====
-- scheduler/scheduler.go, processTask: which attempts a worker makes, and how they end.
use amp_sentinel.Prelude.{
  ℕ, zero, suc, ◌+◌, ◌≤◌, ◌<◌, ◌≡◌, inl, inr, refl, ap, ◌∙◌, false, ◌&&◌, List, [], ◌∷◌, ltb, arith,
  Bool-cases,
}
use amp_sentinel.Prelude.Text.{Text}
use amp_sentinel.Scheduler.Task.{Task, completed, failed}
use amp_sentinel.Scheduler.Work.{
  Outcome, succeeds, errs, panics, Attempt, Stats, Processed, complete, fail, start, called,
  record_error, settle, attempts, process_task, recover, safe_process_task,
}

-- The numbers from `n` on, `m` of them.
abbrev pub range : ℕ → ℕ → List ℕ
range n zero = []
range n (suc m) = n ∷ range (n + 1) m

-- The calls of a run that began at attempt `n` with `k` attempts left.
abbrev CalledUpTo : ℕ → ℕ → Processed → Type 0
CalledUpTo n k r = (m : ℕ) × (m ≤ k) × (r.calls ≡ range n m)

settle-CalledUpTo :
    (o : Outcome) (a : Attempt) (n k : ℕ) (t : Task) (c : Stats) (rest : Task → Processed)
    → ((u : Task) → CalledUpTo (n + 1) k (rest u))
    → (m : ℕ) × (0 < m) × (m ≤ suc k) × ((settle o a n t c rest).calls ≡ range n m)
unfolding settle called complete fail
settle-CalledUpTo succeeds a n k t c rest f = (1, omega arith, omega arith, refl)
settle-CalledUpTo (errs e) a n k t c rest f = elim (Bool-cases a.cancelled_after) [
  | inl b ↦ rw b (1, omega arith, omega arith, refl)
  | inr b ↦
      let (m, le, eq) = f (record_error t n e) in
      rw b (suc m, omega arith, omega arith, ap (◌∷◌ n) eq)
]
settle-CalledUpTo (panics e) a n k t c rest f = (1, omega arith, omega arith, refl)

attempts-CalledUpTo :
    (world : ℕ → Attempt) (last k n : ℕ) (t : Task) (c : Stats)
    → CalledUpTo n k (attempts world last k n t c)
unfolding attempts fail
attempts-CalledUpTo world last zero n t c = (0, omega arith, refl)
attempts-CalledUpTo world last (suc k) n t c =
    elim (Bool-cases (ltb 0 n && (world n).cancelled_before)) [
      | inl b ↦ rw b (0, omega arith, refl)
      | inr b ↦
          let (m, _, le, eq) =
            settle-CalledUpTo (world n).outcome (world n) n k (start t (world n).begins_at) c
              (λ u. attempts world last k (n + 1) u c)
              (λ u. attempts-CalledUpTo world last k (n + 1) u c) in
          rw b (m, le, eq)
    ]

recover-calls : (r : Processed) (now : ℕ) (e : List Text) → (recover r now e).calls ≡ r.calls
unfolding recover
recover-calls r now [] = refl
recover-calls r now (e ∷ _) = refl

-- The first attempt is made, whether or not the scheduler is being shut down.
process_task_step :
    (world : ℕ → Attempt) (last : ℕ) (t : Task) (c : Stats)
    → process_task world last t c
      ≡ settle
          (world 0).outcome
          (world 0)
          0
          (start t (world 0).begins_at)
          c
          (λ u. attempts world last t.max_retries 1 u c)
unfolding process_task attempts
process_task_step world last t c =
    let e : t.max_retries + 1 ≡ suc t.max_retries = omega arith in rw e refl

-- Whatever the world does, a worker calls the diagnosis function for the attempts 0, 1, … in this order, at least
-- once and at most `max_retries + 1` times.
pub safe_process_task-calls :
    (world : ℕ → Attempt) (last : ℕ) (t : Task) (c : Stats)
    → (m : ℕ) × (0 < m)
      × (m ≤ t.max_retries + 1)
      × ((safe_process_task world last t c).calls ≡ range 0 m)
unfolding safe_process_task
safe_process_task-calls world last t c =
    let r = process_task world last t c in
    let (m, some_call, le, eq) =
      settle-CalledUpTo (world 0).outcome (world 0) 0 t.max_retries (start t (world 0).begins_at) c
        (λ u. attempts world last t.max_retries 1 u c)
        (λ u. attempts-CalledUpTo world last t.max_retries 1 u c) in
    (
      m,
      some_call,
      omega arith,
      recover-calls r last r.panic ∙ ap (λ q. q.calls) (process_task_step world last t c) ∙ eq,
    )

-- Attempt `n` is made and fails with an error, and the scheduler is not being shut down.
pub record Retried (world : ℕ → Attempt) (n : ℕ) : Type 0 where
  pub message : Text
  pub failure : (world n).outcome ≡ errs message
  pub waited : (ltb 0 n && (world n).cancelled_before) ≡ false
  pub goes_on : (world n).cancelled_after ≡ false

Retried-step :
    (world : ℕ → Attempt) (last k n : ℕ) (t : Task) (c : Stats) (r : Retried world n)
    → attempts world last (suc k) n t c
      ≡ called n
          (attempts world last k (n + 1) (record_error (start t (world n).begins_at) n r.message) c)
unfolding attempts settle
Retried-step world last k n t c r = rw (r.waited, r.failure, r.goes_on) refl

attempts_success :
    (world : ℕ → Attempt) (last top j k n : ℕ) (t : Task) (c : Stats)
    → n + j ≡ top
    → j < k
    → ((i : ℕ) → n ≤ i → i < top → Retried world i)
    → (world top).outcome ≡ succeeds
    → (ltb 0 top && (world top).cancelled_before) ≡ false
    → ((attempts world last k n t c).task.status ≡ completed)
      × ((attempts world last k n t c).calls ≡ range n (suc j))
      × ((attempts world last k n t c).panic ≡ [])
unfolding attempts settle called complete
attempts_success world last top j zero n t c e lt f ok waited = absurd (omega arith)
attempts_success world last top zero (suc k) n t c e lt f ok waited =
    let here : n ≡ top = omega arith in rw (here, waited, ok) (refl, refl, refl)
attempts_success world last top (suc j) (suc k) n t c e lt f ok waited =
    let r = f n (omega arith) (omega arith) in
    let (status, calls, panic) =
      attempts_success world last top j k (n + 1)
        (record_error (start t (world n).begins_at) n r.message) c (omega arith) (omega arith)
        (λ i le below. f i (omega arith) below) ok waited in
    rw (Retried-step world last k n t c r) (status, ap (◌∷◌ n) calls, panic)

-- A task whose attempts 0 to k - 1 fail with an error, with no shutdown, and whose attempt k is made and succeeds,
-- where k is at most `max_retries`, is completed, after the calls 0 to k and no other.
pub safe_process_task-success :
    (world : ℕ → Attempt) (last k : ℕ) (t : Task) (c : Stats)
    → k ≤ t.max_retries
    → ((i : ℕ) → i < k → Retried world i)
    → (world k).outcome ≡ succeeds
    → (ltb 0 k && (world k).cancelled_before) ≡ false
    → ((safe_process_task world last t c).task.status ≡ completed)
      × ((safe_process_task world last t c).calls ≡ range 0 (k + 1))
unfolding safe_process_task process_task recover
safe_process_task-success world last k t c le f ok waited =
    let (status, calls, panic) =
      attempts_success world last k k (t.max_retries + 1) 0 t c (omega arith) (omega arith)
        (λ i _ below. f i below) ok waited in
    let e : k + 1 ≡ suc k = omega arith in rw (panic, e) (status, calls)

attempts_failure :
    (world : ℕ → Attempt) (last k n : ℕ) (t : Task) (c : Stats)
    → t.retry_count ≡ n
    → ((i : ℕ) → n ≤ i → i < n + k → Retried world i)
    → ((attempts world last k n t c).task.status ≡ failed)
      × ((attempts world last k n t c).task.retry_count ≡ n + k)
      × ((attempts world last k n t c).calls ≡ range n k)
      × ((attempts world last k n t c).panic ≡ [])
unfolding attempts called fail record_error
attempts_failure world last zero n t c e f = (refl, omega arith, refl, refl)
attempts_failure world last (suc k) n t c e f =
    let r = f n (omega arith) (omega arith) in
    let (status, count, calls, panic) =
      attempts_failure world last k (n + 1) (record_error (start t (world n).begins_at) n r.message)
        c refl (λ i le below. f i (omega arith) (omega arith)) in
    rw (Retried-step world last k n t c r) (status, omega (arith, count), ap (◌∷◌ n) calls, panic)

-- A task whose attempts 0 to `max_retries` all fail with an error, with no shutdown, is failed after all of them, and
-- its retry count is their number.
pub safe_process_task-failure :
    (world : ℕ → Attempt) (last : ℕ) (t : Task) (c : Stats)
    → t.retry_count ≡ 0
    → ((i : ℕ) → i ≤ t.max_retries → Retried world i)
    → ((safe_process_task world last t c).task.status ≡ failed)
      × ((safe_process_task world last t c).task.retry_count ≡ t.max_retries + 1)
      × ((safe_process_task world last t c).calls ≡ range 0 (t.max_retries + 1))
unfolding safe_process_task process_task recover
safe_process_task-failure world last t c fresh f =
    let (status, count, calls, panic) =
      attempts_failure world last (t.max_retries + 1) 0 t c fresh
        (λ i _ below. f i (omega arith)) in
    rw panic (status, omega (arith, count), calls)
