-- ===== src/Scheduler/System.antt =====
-- scheduler/scheduler.go: the scheduler as a whole, with Submit, Stop and the workers in any interleaving.
use amp_sentinel.Prelude.{
  ℕ, zero, suc, ◌+◌, ◌-◌, ◌<◌, ◌≡◌, Bool, true, false, List, [], ◌∷◌, ◌++◌, ◌⊎◌, inl, inr,
  if◌then◌else◌, length,
}
use amp_sentinel.Prelude.Text.{Text, utf8}
use amp_sentinel.Intake.Event.{RawEvent}
use amp_sentinel.Scheduler.Task.{Task}
use amp_sentinel.Scheduler.Queue.{
  PriorityQueue, new_priority_queue, enqueue, Dequeued, drained, taken, dequeue, close,
}
use amp_sentinel.Scheduler.Work.{Settings, Stats, Attempt, Processed, task_of, safe_process_task}
pub mod Outcomes
pub mod Accounting

-- `idle` workers are at priorityQueue.pop; `popped` holds the tasks of those that have popped one and not yet counted
-- themselves as running, `active` the tasks in safeProcessTask; `settled` workers have come out of it and still count as
-- running; and `exited` workers have returned.
pub record System : Type 0 where
  pub settings : Settings
  pub queue : PriorityQueue
  pub stopped : Bool
  pub stats : Stats
  pub idle : ℕ
  pub popped : List Task
  pub active : List Task
  pub settled : ℕ
  pub exited : ℕ

-- New and Start
unfoldable pub launch : Settings → System
launch s = record {
  settings = s;
  queue = new_priority_queue s.queue_size;
  stopped = false;
  stats = record { in_work = 0; done = 0; gone_wrong = 0 };
  idle = s.max_concurrency;
  popped = [];
  active = [];
  settled = 0;
  exited = 0;
}

pub data SubmitError : Type 0 where
  is_stopped : SubmitError
  queue_full : ℕ → SubmitError

-- Submit: the id of the task, or the reason why it is refused.
unfoldable pub submit : System → Text → ℕ → RawEvent → System × (SubmitError ⊎ Text)
submit s uuid now event =
    let t = task_of s.settings uuid now event in
    let (q, ok) = enqueue s.queue t in
    if s.stopped
    then (s, inl is_stopped)
    else if ok
    then (record s { queue = q }, inr t.id)
    else (s, inl (queue_full s.settings.queue_size))

-- Stop, up to the wait for the workers.
unfoldable pub stop : System → System
stop s = record s { stopped = true; queue = close s.queue }

-- `task := s.pq.pop()`, which has given `t` and left the queue `q`.
unfoldable pub take_up : System → Task → PriorityQueue → System
take_up s t q = record s { queue = q; idle = s.idle - 1; popped = t ∷ s.popped }

-- `s.running.Add(1)` of the worker with `t`; the others with a popped task have `rest`.
unfoldable pub count_in : System → Task → List Task → System
count_in s t rest = record s {
  popped = rest;
  active = t ∷ s.active;
  stats = record s.stats { in_work = s.stats.in_work + 1 };
}

-- safeProcessTask has ended a task, one of `rest` beside it, and left the counters `c`.
unfoldable pub put_down : System → Stats → List Task → System
put_down s c rest = record s { active = rest; settled = s.settled + 1; stats = c }

-- `s.running.Add(-1)`
unfoldable pub lay_down : System → System
lay_down s = record s {
  idle = s.idle + 1;
  settled = s.settled - 1;
  stats = record s.stats { in_work = s.stats.in_work - 1 };
}

unfoldable pub leave : System → System
leave s = record s { idle = s.idle - 1; exited = s.exited + 1 }

-- One step of the scheduler; the number is that of the tasks that it accepts.
pub data Step : ℕ → System → System → Type 0 where
  submits :
      (s : System) (uuid : Text) (now : ℕ) (event : RawEvent) (id : Text)
      → (submit s uuid now event).1 ≡ inr id
      → Step 1 s (submit s uuid now event).0
  refuses :
      (s : System) (uuid : Text) (now : ℕ) (event : RawEvent) (e : SubmitError)
      → (submit s uuid now event).1 ≡ inl e
      → Step 0 s (submit s uuid now event).0
  takes :
      (s : System) (t : Task) (q : PriorityQueue)
      → 0 < s.idle
      → dequeue s.queue ≡ taken t q
      → Step 0 s (take_up s t q)
  counts_in :
      (s : System) (before after : List Task) (t : Task)
      → s.popped ≡ before ++ t ∷ after
      → Step 0 s (count_in s t (before ++ after))
  finishes :
      (s : System) (before after : List Task) (t : Task) (world : ℕ → Attempt) (last : ℕ)
      → s.active ≡ before ++ t ∷ after
      → Step 0 s (put_down s (safe_process_task world last t s.stats).stats (before ++ after))
  counts_out : (s : System) → 0 < s.settled → Step 0 s (lay_down s)
  leaves : (s : System) → 0 < s.idle → dequeue s.queue ≡ drained → Step 0 s (leave s)
  stops : (s : System) → Step 0 s (stop s)

-- The runs from the start, with the number of tasks accepted so far.
pub data Run (cfg : Settings) : ℕ → System → Type 0 where
  begin : Run cfg 0 (launch cfg)
  next : (n m : ℕ) (s t : System) → Run cfg n s → Step m s t → Run cfg (m + n) t
