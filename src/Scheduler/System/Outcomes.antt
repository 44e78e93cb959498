-- ===== src/Scheduler/System/Outcomes.antt =====
-- scheduler/scheduler.go: the outcomes of Submit, of a look into the queue, and of one task.
use amp_sentinel.Prelude.{
  ℕ, ◌+◌, ◌<◌, ◌≡◌, ◌⊎◌, inl, inr, refl, ap, true, false, ◌||◌, leb, length, arith, Bool-cases,
}
use amp_sentinel.Prelude.Text.{Text}
use amp_sentinel.Intake.Event.{RawEvent}
use amp_sentinel.Scheduler.Task.{Task}
use amp_sentinel.Scheduler.Heap as Heap
use amp_sentinel.Scheduler.Queue.{PriorityQueue, enqueue, Dequeued, waits, drained, taken, dequeue}
use amp_sentinel.Scheduler.Work.{Stats, Attempt, task_of, safe_process_task}
use amp_sentinel.Scheduler.Work.Settled.{safe_process_task-counts}
use amp_sentinel.Scheduler.System.{System, SubmitError, is_stopped, queue_full, submit}

-- Accepting a task, or refusing it.
pub enqueue_cases :
    (q : PriorityQueue) (t : Task)
    → ((enqueue q t ≡ (record q { heap = Heap.push q.heap t }, true))
        × (q.closed ≡ false)
        × (length q.heap < q.max_size))
      ⊎ (enqueue q t ≡ (q, false))
unfolding enqueue
enqueue_cases q t = elim (Bool-cases (q.closed || leb q.max_size (length q.heap))) [
  | inl b ↦ rw b (inr refl)
  | inr b ↦ rw b (inl (refl, ground arith, ground arith))
]

-- What Submit does to the system, with the room that there was.
pub data SubmitResult (s : System) (t : Task) (r : System × (SubmitError ⊎ Text)) : Type 0 where
  accepted :
      r ≡ (record s { queue = record s.queue { heap = Heap.push s.queue.heap t } }, inr t.id)
      → s.stopped ≡ false
      → length s.queue.heap < s.queue.max_size
      → SubmitResult s t r
  refused : (e : SubmitError) → r ≡ (s, inl e) → SubmitResult s t r

pub submit_cases :
    (s : System) (uuid : Text) (now : ℕ) (event : RawEvent)
    → SubmitResult s (task_of s.settings uuid now event) (submit s uuid now event)
unfolding submit
submit_cases s uuid now event = elim (Bool-cases s.stopped) [
  | inl b ↦ rw b (refused is_stopped refl)
  | inr b ↦ elim (enqueue_cases s.queue (task_of s.settings uuid now event)) [
    | inl (e, _, room) ↦ rw (b, e) (accepted refl refl room)
    | inr e ↦ rw (b, e) (refused (queue_full s.settings.queue_size) refl)
  ]
]

pub submit_refuses :
    (s : System) (uuid : Text) (now : ℕ) (event : RawEvent) (e : SubmitError)
    → (submit s uuid now event).1 ≡ inl e
    → (submit s uuid now event).0 ≡ s
submit_refuses s uuid now event e p = elim (submit_cases s uuid now event) [
  | accepted f _ _ ↦ absurd (ground (arith, p, ap (λ r. r.1) f))
  | refused err f ↦ rw f refl
]

pub dequeue_cases :
    (q : PriorityQueue)
    → ((0 < length q.heap)
        × (dequeue q ≡ taken (Heap.pop q.heap).0.task (record q { heap = (Heap.pop q.heap).1 })))
      ⊎ ((length q.heap ≡ 0) × (q.closed ≡ true) × (dequeue q ≡ drained))
      ⊎ ((length q.heap ≡ 0) × (q.closed ≡ false) × (dequeue q ≡ waits))
unfolding dequeue
dequeue_cases q = ground arith

abbrev pub queue_after : PriorityQueue → Dequeued → PriorityQueue
queue_after q waits = q
queue_after q drained = q
queue_after q (taken t r) = r

-- The worker's own count of a task.
pub counted_once :
    (world : ℕ → Attempt) (last : ℕ) (t : Task) (c : Stats)
    → ((safe_process_task world last t c).stats.in_work ≡ c.in_work)
      × ((safe_process_task world last t c).stats.done
            + (safe_process_task world last t c).stats.gone_wrong
          ≡ c.done + c.gone_wrong + 1)
counted_once world last t c = elim (safe_process_task-counts world last t c) [
  | inl (_, e, _, _) ↦ rw e (refl, omega arith)
  | inr (_, e, _) ↦ rw e (refl, omega arith)
]
