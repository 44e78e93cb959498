-- ===== src/Tests/Scheduling.antt =====
-- Examples for the scheduler: two tasks in a queue, one worker, and attempts that fail once.
use mathlib.Core.List.{Perm}
use amp_sentinel.Prelude.{
  ℕ, zero, suc, ◌+◌, ◌≤◌, ◌<◌, ◌≡◌, ◌⊎◌, inr, refl, true, false, not, ◌||◌, [], ◌∷◌, ◌++◌, leb,
  if◌then◌else◌, length, all, arith,
}
use amp_sentinel.Intake.Event.{RawEvent}
use amp_sentinel.Scheduler.Task.{Task, pending, completed, failed, less}
use amp_sentinel.Scheduler.Heap.{
  tasks, swap, slot_at, no_slot, up_loop, up, first_child, down_loop, down,
}
use amp_sentinel.Scheduler.Heap as Heap
use amp_sentinel.Scheduler.Queue.{
  PriorityQueue, new_priority_queue, enqueue, drained, taken, dequeue, close,
}
use amp_sentinel.Scheduler.Queue.Priority.{IsQueue, enqueue_takes_in, dequeue_first}
use amp_sentinel.Scheduler.Work.{
  Settings, Stats, Attempt, Outcome, succeeds, errs, panics, task_of, safe_process_task,
}
use amp_sentinel.Scheduler.Work.Settled.{some_success, some_panic, safe_process_task-counts}
use amp_sentinel.Scheduler.Work.Calls.{
  Retried, range, safe_process_task-calls, safe_process_task-success, safe_process_task-failure,
}
use amp_sentinel.Scheduler.System.{
  System, launch, submit, stop, take_up, count_in, put_down, lay_down, leave, submits, takes,
  counts_in, finishes, counts_out, leaves, stops, Run, begin, next,
}
use amp_sentinel.Scheduler.System.Accounting.{IsConsistent, Run-IsConsistent, Run-drained}

abbrev disk_event : RawEvent
disk_event = record {
  id = b'e' ∷ [];
  project_key = b'p' ∷ [];
  payload = b'{' ∷ b'}' ∷ [];
  source = [];
  severity = [];
  title = [];
  received_at = 7;
}

abbrev one_worker : Settings
one_worker = record {
  max_concurrency = 1;
  queue_size = 2;
  default_timeout = 900;
  retry_count = 2;
  retry_delay = 10;
}

abbrev disk_task : Task
disk_task = record {
  id = b't' ∷ [];
  event = disk_event;
  priority = 50;
  status = pending;
  retry_count = 0;
  max_retries = 2;
  created_at = 10;
  started_at = 0;
  finished_at = 0;
  error = [];
}

abbrev urgent_task : Task
urgent_task = record disk_task { id = b'u' ∷ []; priority = 100; created_at = 11 }

abbrev no_stats : Stats
no_stats = record { in_work = 0; done = 0; gone_wrong = 0 }

-- The first attempt fails, and all others succeed.
abbrev attempt_of : Outcome → Attempt
attempt_of o = record {
  cancelled_before = false;
  begins_at = 20;
  outcome = o;
  cancelled_after = false;
  ends_at = 30;
}

abbrev second_succeeds : ℕ → Attempt
second_succeeds zero = attempt_of (errs (b'x' ∷ []))
second_succeeds (suc n) = attempt_of succeeds

abbrev none_succeeds : ℕ → Attempt
none_succeeds n = attempt_of (errs (b'x' ∷ []))

abbrev panicking : ℕ → Attempt
panicking n = attempt_of (panics (b'!' ∷ []))

safe_process_task-counts_example :
    ((safe_process_task panicking 40 disk_task no_stats).task.status ≡ completed
      × (safe_process_task panicking 40 disk_task no_stats).stats ≡ record no_stats { done = 0 + 1 }
      × some_success panicking (safe_process_task panicking 40 disk_task no_stats).calls ≡ true
      × some_panic panicking (safe_process_task panicking 40 disk_task no_stats).calls ≡ false)
    ⊎ ((safe_process_task panicking 40 disk_task no_stats).task.status ≡ failed
        × (safe_process_task panicking 40 disk_task no_stats).stats
          ≡ record no_stats { gone_wrong = 0 + 1 }
        × some_success panicking (safe_process_task panicking 40 disk_task no_stats).calls ≡ false)
safe_process_task-counts_example = safe_process_task-counts panicking 40 disk_task no_stats

safe_process_task-calls_example :
    (m : ℕ) × (0 < m)
    × (m ≤ 2 + 1)
    × ((safe_process_task second_succeeds 40 disk_task no_stats).calls ≡ range 0 m)
safe_process_task-calls_example = safe_process_task-calls second_succeeds 40 disk_task no_stats

first-Retried : (i : ℕ) → i < 1 → Retried second_succeeds i
first-Retried zero h = record { message = b'x' ∷ []; failure = refl; waited = refl; goes_on = refl }
first-Retried (suc i) h = absurd (omega arith)

safe_process_task-success_example :
    ((safe_process_task second_succeeds 40 disk_task no_stats).task.status ≡ completed)
    × ((safe_process_task second_succeeds 40 disk_task no_stats).calls ≡ range 0 (1 + 1))
safe_process_task-success_example =
    safe_process_task-success second_succeeds 40 1 disk_task no_stats (omega arith) first-Retried
      refl refl

always-Retried : (i : ℕ) → i ≤ 2 → Retried none_succeeds i
always-Retried i h = record {
  message = b'x' ∷ [];
  failure = refl;
  waited = ground arith;
  goes_on = refl;
}

safe_process_task-failure_example :
    ((safe_process_task none_succeeds 40 disk_task no_stats).task.status ≡ failed)
    × ((safe_process_task none_succeeds 40 disk_task no_stats).task.retry_count ≡ 2 + 1)
    × ((safe_process_task none_succeeds 40 disk_task no_stats).calls ≡ range 0 (2 + 1))
safe_process_task-failure_example =
    safe_process_task-failure none_succeeds 40 disk_task no_stats refl always-Retried

abbrev no_tasks : PriorityQueue
no_tasks = record { heap = []; max_size = 2; closed = false }

no_tasks-IsQueue : IsQueue no_tasks
no_tasks-IsQueue = record {
  ordered = λ c pc hc. absurd (omega arith);
  indexed = λ c hc. absurd (omega arith);
  bounded = omega arith;
}

abbrev one_task : PriorityQueue
one_task = (enqueue no_tasks disk_task).0

abbrev two_tasks : PriorityQueue
two_tasks = (enqueue one_task urgent_task).0

one_task-IsQueue : IsQueue one_task
one_task-IsQueue = (enqueue_takes_in no_tasks disk_task no_tasks-IsQueue).0

two_tasks-IsQueue : IsQueue two_tasks
two_tasks-IsQueue = (enqueue_takes_in one_task urgent_task one_task-IsQueue).0

enqueue_takes_in_example :
    IsQueue two_tasks
    × ((enqueue one_task urgent_task).1
        ≡ not (one_task.closed || leb one_task.max_size (length one_task.heap)))
    × Perm (tasks two_tasks.heap) (
        if (enqueue one_task urgent_task).1
        then urgent_task ∷ tasks one_task.heap
        else tasks one_task.heap)
enqueue_takes_in_example = enqueue_takes_in one_task urgent_task one_task-IsQueue

two_tasks_some : 0 < length two_tasks.heap
unfolding enqueue Heap.push up up_loop swap slot_at no_slot less
two_tasks_some = omega arith

dequeue_first_example :
    (t : Task) × (r : PriorityQueue) × (dequeue two_tasks ≡ taken t r)
    × (all (λ u. not (less u t)) (tasks r.heap) ≡ true)
    × Perm (t ∷ tasks r.heap) (tasks two_tasks.heap)
    × IsQueue r
dequeue_first_example = dequeue_first two_tasks two_tasks-IsQueue two_tasks_some

-- A run: an event is submitted and diagnosed at the second attempt, and the scheduler is stopped.
abbrev started : System
started = launch one_worker

abbrev with_task : System
with_task = (submit started (b'1' ∷ []) 10 disk_event).0

abbrev submitted_task : Task
submitted_task = task_of one_worker (b'1' ∷ []) 10 disk_event

abbrev holding : System
holding = take_up with_task submitted_task no_tasks

abbrev in_work : System
in_work = count_in holding submitted_task []

abbrev put_back : System
put_back =
    put_down in_work (safe_process_task second_succeeds 40 submitted_task in_work.stats).stats []

abbrev diagnosed : System
diagnosed = lay_down put_back

abbrev stopped : System
stopped = stop diagnosed

accepted_submit : (submit started (b'1' ∷ []) 10 disk_event).1 ≡ inr submitted_task.id
unfolding submit launch new_priority_queue enqueue Heap.push
accepted_submit = refl

took_task : dequeue with_task.queue ≡ taken submitted_task no_tasks
unfolding dequeue submit launch new_priority_queue enqueue Heap.push Heap.pop up up_loop down
    down_loop swap slot_at no_slot
took_task = refl

idle_worker : 0 < with_task.idle
unfolding submit launch new_priority_queue enqueue
idle_worker = omega arith

active_task : in_work.active ≡ [] ++ submitted_task ∷ []
unfolding count_in take_up submit launch new_priority_queue enqueue
active_task = refl

popped_task : holding.popped ≡ [] ++ submitted_task ∷ []
unfolding take_up submit launch new_priority_queue enqueue
popped_task = refl

settled_worker : 0 < put_back.settled
unfolding put_down
settled_worker = omega arith

still_idle : 0 < stopped.idle
unfolding stop lay_down
still_idle = omega arith

drained_queue : dequeue stopped.queue ≡ drained
unfolding stop close lay_down put_down count_in take_up dequeue Heap.pop
drained_queue = refl

whole-Run : Run one_worker (0 + (0 + (0 + (0 + (0 + (0 + (1 + 0))))))) (leave stopped)
whole-Run =
    let submitted =
      next 0 1 started with_task begin
        (submits started (b'1' ∷ []) 10 disk_event submitted_task.id accepted_submit) in
    let popped =
      next 1 0 with_task holding submitted
        (takes with_task submitted_task no_tasks idle_worker took_task) in
    let working =
      next 1 0 holding in_work popped (counts_in holding [] [] submitted_task popped_task) in
    let settled =
      next 1 0 in_work put_back working
        (finishes in_work [] [] submitted_task second_succeeds 40 active_task) in
    let done = next 1 0 put_back diagnosed settled (counts_out put_back settled_worker) in
    let halted = next 1 0 diagnosed stopped done (stops diagnosed) in
    next 1 0 stopped (leave stopped) halted (leaves stopped still_idle drained_queue)

all_left : (leave stopped).exited ≡ 1
unfolding leave stop lay_down put_down count_in take_up submit launch new_priority_queue enqueue
all_left = refl

Run-drained_example :
    ((leave stopped).stats.done + (leave stopped).stats.gone_wrong ≡ 1)
    × ((leave stopped).stats.in_work ≡ 0)
    × ((leave stopped).stopped ≡ true)
Run-drained_example = Run-drained one_worker 1 (leave stopped) (omega arith) whole-Run all_left

Run-IsConsistent_example : IsConsistent one_worker 1 (leave stopped)
Run-IsConsistent_example = Run-IsConsistent one_worker 1 (leave stopped) whole-Run
