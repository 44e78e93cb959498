-- ===== src/Scheduler/System/Accounting.antt =====
-- scheduler/scheduler.go: no interleaving of Submit, Stop and the workers loses a task.
use amp_sentinel.Prelude.{
  ℕ, ◌+◌, ◌≤◌, ◌<◌, ◌≡◌, ◌⊎◌, inl, inr, refl, sym, ap, ◌∙◌, true, List, ◌∷◌, ◌++◌, length, arith,
  length-append,
}
use amp_sentinel.Prelude.Text.{Text}
use amp_sentinel.Intake.Event.{RawEvent}
use amp_sentinel.Scheduler.Task.{Task}
use amp_sentinel.Scheduler.Heap as Heap
use amp_sentinel.Scheduler.Heap.Contents.{length-push, length-pop}
use amp_sentinel.Scheduler.Queue.Priority.{
  IsQueue, new_priority_queue-IsQueue, close-IsQueue, pushed-IsQueue, popped-IsQueue,
}
use amp_sentinel.Scheduler.Queue.{PriorityQueue, new_priority_queue, drained, taken, dequeue, close}
use amp_sentinel.Scheduler.Work.{Settings, Attempt, task_of, safe_process_task}
use amp_sentinel.Scheduler.System.{
  System, launch, submit, stop, take_up, count_in, put_down, lay_down, leave, Step, submits,
  refuses, takes, counts_in, finishes, counts_out, leaves, stops, Run, begin, next,
}
use amp_sentinel.Scheduler.System.Outcomes.{
  accepted, refused, submit_cases, submit_refuses, dequeue_cases, queue_after, counted_once,
}

-- What holds of a scheduler that was started with `cfg` and has accepted `n` tasks.
pub record IsConsistent (cfg : Settings) (n : ℕ) (s : System) : Type 0 where
  pub same_settings : s.settings ≡ cfg
  pub same_size : s.queue.max_size ≡ cfg.queue_size
  pub bounded : length s.queue.heap ≤ cfg.queue_size
  pub well_formed : IsQueue s.queue
  pub running : s.stats.in_work ≡ length s.active + s.settled
  pub workers :
      s.idle + length s.popped + length s.active + s.settled + s.exited ≡ cfg.max_concurrency
  pub all_counted :
      n
      ≡ length s.queue.heap + length s.popped + length s.active + s.stats.done + s.stats.gone_wrong
  pub stopped_closed : s.queue.closed ≡ s.stopped
  pub left_drained : (s.exited ≡ 0) ⊎ ((s.stopped ≡ true) × (length s.queue.heap ≡ 0))

launch-IsConsistent : (cfg : Settings) → IsConsistent cfg 0 (launch cfg)
unfolding launch new_priority_queue
launch-IsConsistent cfg = record {
  same_settings = refl;
  same_size = refl;
  well_formed = new_priority_queue-IsQueue cfg.queue_size;
  bounded = omega arith;
  running = refl;
  workers = omega arith;
  all_counted = omega arith;
  stopped_closed = refl;
  left_drained = inl refl;
}

submit_accepts :
    (cfg : Settings) (n : ℕ) (s : System) (uuid : Text) (now : ℕ) (event : RawEvent) (id : Text)
    → IsConsistent cfg n s
    → (submit s uuid now event).1 ≡ inr id
    → IsConsistent cfg (1 + n) (submit s uuid now event).0
submit_accepts cfg n s uuid now event id v p = elim (submit_cases s uuid now event) [
  | accepted e still_open room ↦
      let size = length-push s.queue.heap (task_of s.settings uuid now event) in
      rw e (record {
        same_settings = v.same_settings;
        same_size = v.same_size;
        running = v.running;
        workers = v.workers;
        stopped_closed = v.stopped_closed;
        well_formed = pushed-IsQueue s.queue (task_of s.settings uuid now event) v.well_formed room;
        bounded = omega (arith, size, room, v.same_size, v.bounded);
        all_counted = omega (arith, size, v.all_counted);
        left_drained = elim v.left_drained [
          | inl none_left ↦ inl none_left
          | inr (shut, _) ↦ absurd (ground (arith, still_open, shut))
        ];
      })
  | refused err e ↦ absurd (ground (arith, p, ap (λ r. r.1) e))
]

zero_plus :
    {cfg : Settings} {n : ℕ} {s : System} → IsConsistent cfg n s → IsConsistent cfg (0 + n) s
zero_plus {n = n} v = let e : 0 + n ≡ n = omega arith in rw e v

take_up-IsConsistent :
    (cfg : Settings) (n : ℕ) (s : System) (t : Task) (q : PriorityQueue)
    → IsConsistent cfg n s
    → 0 < s.idle
    → dequeue s.queue ≡ taken t q
    → IsConsistent cfg (0 + n) (take_up s t q)
unfolding take_up
take_up-IsConsistent cfg n s t q v some_idle d = elim (dequeue_cases s.queue) [
  | inl (more, e) ↦
      let size = length-pop s.queue.heap more in
      let same : q ≡ record s.queue { heap = (Heap.pop s.queue.heap).1 } =
        ap (queue_after s.queue) (sym d ∙ e) in
      rw same (record {
        same_settings = v.same_settings;
        same_size = v.same_size;
        well_formed = popped-IsQueue s.queue v.well_formed more;
        bounded = omega (arith, size, v.bounded);
        running = omega (arith, v.running);
        workers = omega (arith, v.workers);
        all_counted = omega (arith, size, v.all_counted);
        stopped_closed = v.stopped_closed;
        left_drained = elim v.left_drained [
          | inl none_left ↦ inl none_left
          | inr (_, empty) ↦ absurd (omega arith)
        ];
      })
  | inr (inl (_, _, e)) ↦ absurd (ground (arith, d, e))
  | inr (inr (_, _, e)) ↦ absurd (ground (arith, d, e))
]

split_length :
    {xs : List Task} (before after : List Task) (t : Task)
    → xs ≡ before ++ t ∷ after
    → length xs ≡ length (before ++ after) + 1
split_length before after t e =
    omega (arith, ap length e, length-append before (t ∷ after), length-append before after)

count_in-IsConsistent :
    (cfg : Settings) (n : ℕ) (s : System) (before after : List Task) (t : Task)
    → IsConsistent cfg n s
    → s.popped ≡ before ++ t ∷ after
    → IsConsistent cfg (0 + n) (count_in s t (before ++ after))
unfolding count_in
count_in-IsConsistent cfg n s before after t v e =
    let size = split_length before after t e in
    record {
      same_settings = v.same_settings;
      same_size = v.same_size;
      well_formed = v.well_formed;
      bounded = v.bounded;
      running = omega (arith, v.running);
      workers = omega (arith, size, v.workers);
      all_counted = omega (arith, size, v.all_counted);
      stopped_closed = v.stopped_closed;
      left_drained = v.left_drained;
    }

put_down-IsConsistent :
    (cfg : Settings) (n : ℕ) (s : System) (before after : List Task) (t : Task)
    (world : ℕ → Attempt) (last : ℕ)
    → IsConsistent cfg n s
    → s.active ≡ before ++ t ∷ after
    → IsConsistent cfg
        (0 + n)
        (put_down s (safe_process_task world last t s.stats).stats (before ++ after))
unfolding put_down
put_down-IsConsistent cfg n s before after t world last v e =
    let size = split_length before after t e in
    let once = counted_once world last t s.stats in
    record {
      same_settings = v.same_settings;
      same_size = v.same_size;
      well_formed = v.well_formed;
      bounded = v.bounded;
      running = omega (arith, size, v.running, once.0);
      workers = omega (arith, size, v.workers);
      all_counted = omega (arith, size, v.all_counted, once.1);
      stopped_closed = v.stopped_closed;
      left_drained = v.left_drained;
    }

lay_down-IsConsistent :
    (cfg : Settings) (n : ℕ) (s : System)
    → IsConsistent cfg n s
    → 0 < s.settled
    → IsConsistent cfg (0 + n) (lay_down s)
unfolding lay_down
lay_down-IsConsistent cfg n s v some_settled = record {
  same_settings = v.same_settings;
  same_size = v.same_size;
  well_formed = v.well_formed;
  bounded = v.bounded;
  running = omega (arith, v.running);
  workers = omega (arith, v.workers);
  all_counted = omega (arith, v.all_counted);
  stopped_closed = v.stopped_closed;
  left_drained = v.left_drained;
}

leave-IsConsistent :
    (cfg : Settings) (n : ℕ) (s : System)
    → IsConsistent cfg n s
    → 0 < s.idle
    → dequeue s.queue ≡ drained
    → IsConsistent cfg (0 + n) (leave s)
unfolding leave
leave-IsConsistent cfg n s v some_idle d = elim (dequeue_cases s.queue) [
  | inl (_, e) ↦ absurd (ground (arith, d, e))
  | inr (inl (empty, shut, e)) ↦ record {
    same_settings = v.same_settings;
    same_size = v.same_size;
    well_formed = v.well_formed;
    bounded = v.bounded;
    running = v.running;
    workers = omega (arith, v.workers);
    all_counted = omega (arith, v.all_counted);
    stopped_closed = v.stopped_closed;
    left_drained = inr (sym v.stopped_closed ∙ shut, empty);
  }
  | inr (inr (_, _, e)) ↦ absurd (ground (arith, d, e))
]

stop-IsConsistent :
    (cfg : Settings) (n : ℕ) (s : System) → IsConsistent cfg n s → IsConsistent cfg (0 + n) (stop s)
unfolding stop close
stop-IsConsistent cfg n s v = record {
  same_settings = v.same_settings;
  same_size = v.same_size;
  well_formed = close-IsQueue s.queue v.well_formed;
  bounded = v.bounded;
  running = v.running;
  workers = v.workers;
  all_counted = omega (arith, v.all_counted);
  stopped_closed = refl;
  left_drained = elim v.left_drained [
    | inl none_left ↦ inl none_left
    | inr (_, empty) ↦ inr (refl, empty)
  ];
}

pub Step-IsConsistent :
    {n m : ℕ} {s t : System} {cfg : Settings}
    → IsConsistent cfg n s
    → Step m s t
    → IsConsistent cfg (m + n) t
Step-IsConsistent {n = n} {cfg = cfg} v (submits s uuid now event id e) =
    submit_accepts cfg n s uuid now event id v e
Step-IsConsistent {n = n} {cfg = cfg} v (refuses s uuid now event err e) =
    rw (submit_refuses s uuid now event err e) (zero_plus v)
Step-IsConsistent {n = n} {cfg = cfg} v (takes s t q p e) = take_up-IsConsistent cfg n s t q v p e
Step-IsConsistent {n = n} {cfg = cfg} v (finishes s before after t world last e) =
    put_down-IsConsistent cfg n s before after t world last v e
Step-IsConsistent {n = n} {cfg = cfg} v (counts_in s before after t e) =
    count_in-IsConsistent cfg n s before after t v e
Step-IsConsistent {n = n} {cfg = cfg} v (counts_out s p) = lay_down-IsConsistent cfg n s v p
Step-IsConsistent {n = n} {cfg = cfg} v (leaves s p e) = leave-IsConsistent cfg n s v p e
Step-IsConsistent {n = n} {cfg = cfg} v (stops s) = stop-IsConsistent cfg n s v

-- In every state that a run reaches: the queue is a heap in order, within its size, and closed exactly when the
-- scheduler is stopped; the running counter is the number of tasks in safeProcessTask and of the workers that have come
-- out of it and not yet counted themselves out; the workers that wait, have popped a task, work on one, have settled one
-- or have exited are as many as were started; the tasks accepted are as many as those queued, popped, in work, completed
-- and failed; and if a worker has exited, the scheduler is stopped and its queue empty.
pub Run-IsConsistent : (cfg : Settings) (n : ℕ) (s : System) → Run cfg n s → IsConsistent cfg n s
Run-IsConsistent cfg _ _ begin = launch-IsConsistent cfg
Run-IsConsistent cfg _ _ (next n m s t r e) = Step-IsConsistent (Run-IsConsistent cfg n s r) e

-- When every worker of a scheduler with at least one worker has returned, each accepted task has been counted as
-- completed or as failed: none is left in the queue or in work.
pub Run-drained :
    (cfg : Settings) (n : ℕ) (s : System)
    → 0 < cfg.max_concurrency
    → Run cfg n s
    → s.exited ≡ cfg.max_concurrency
    → (s.stats.done + s.stats.gone_wrong ≡ n) × (s.stats.in_work ≡ 0) × (s.stopped ≡ true)
Run-drained cfg n s some_worker r all_left =
    let v = Run-IsConsistent cfg n s r in
    elim v.left_drained [
      | inl none_left ↦ absurd (omega arith)
      | inr (shut, empty) ↦ (
        omega (arith, v.all_counted, v.workers, empty),
        omega (arith, v.running, v.workers),
        shut,
      )
    ]
