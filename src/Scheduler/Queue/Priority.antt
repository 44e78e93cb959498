-- ===== src/Scheduler/Queue/Priority.antt =====
-- scheduler/task.go, priorityQueue: a task that is dequeued comes first, and no other is lost.
use mathlib.Core.List.{Perm}
use mathlib.Core.List.Perm
use amp_sentinel.Prelude.{
  ℕ, ◌≤◌, ◌<◌, ◌≡◌, refl, inl, inr, true, false, not, ◌||◌, ◌∷◌, leb, ◌==◌, if◌then◌else◌, all,
  length, arith, Bool-cases,
}
use amp_sentinel.Scheduler.Task.{Task, less}
use amp_sentinel.Scheduler.Heap.{Heap, tasks}
use amp_sentinel.Scheduler.Heap as Heap
use amp_sentinel.Scheduler.Heap.Contents.{
  IsIndexed, push-perm, push-IsIndexed, pop-perm, pop-IsIndexed, length-push, length-pop,
}
use amp_sentinel.Scheduler.Heap.Precedence.{IsOrdered}
use amp_sentinel.Scheduler.Heap.Order.{push-IsOrdered, pop-IsOrdered, pop_first}
use amp_sentinel.Scheduler.Queue.{PriorityQueue, new_priority_queue, enqueue, taken, dequeue, close}

pub record IsQueue (q : PriorityQueue) : Type 0 where
  pub ordered : IsOrdered (length q.heap) q.heap
  pub indexed : IsIndexed q.heap
  pub bounded : length q.heap ≤ q.max_size

pub new_priority_queue-IsQueue : (n : ℕ) → IsQueue (new_priority_queue n)
unfolding new_priority_queue
new_priority_queue-IsQueue n = record {
  ordered = λ c pc hc. absurd (omega arith);
  indexed = λ c hc. absurd (omega arith);
  bounded = omega arith;
}

pub close-IsQueue : (q : PriorityQueue) → IsQueue q → IsQueue (close q)
unfolding close
close-IsQueue q v = record { ordered = v.ordered; indexed = v.indexed; bounded = v.bounded }

-- A push where there is room.
pub pushed-IsQueue :
    (q : PriorityQueue) (t : Task)
    → IsQueue q
    → length q.heap < q.max_size
    → IsQueue (record q { heap = Heap.push q.heap t })
pushed-IsQueue q t v room = record {
  ordered = push-IsOrdered q.heap t v.ordered;
  indexed = push-IsIndexed q.heap t v.indexed;
  bounded = omega (arith, room, length-push q.heap t);
}

-- A pop where there is a task.
pub popped-IsQueue :
    (q : PriorityQueue)
    → IsQueue q
    → 0 < length q.heap
    → IsQueue (record q { heap = (Heap.pop q.heap).1 })
popped-IsQueue q v some_task = record {
  ordered = pop-IsOrdered q.heap some_task v.ordered;
  indexed = pop-IsIndexed q.heap some_task v.indexed;
  bounded = omega (arith, v.bounded, length-pop q.heap some_task);
}

-- A queue that has room and is open takes a task in, next to those that it holds; any other refuses it. Either way it
-- stays a heap in order, in which every task knows its place, and within its size.
pub enqueue_takes_in :
    (q : PriorityQueue) (t : Task)
    → IsQueue q
    → IsQueue (enqueue q t).0
      × ((enqueue q t).1 ≡ not (q.closed || leb q.max_size (length q.heap)))
      × Perm
          (tasks (enqueue q t).0.heap)
          (if (enqueue q t).1 then t ∷ tasks q.heap else tasks q.heap)
unfolding enqueue
enqueue_takes_in q t v = elim (Bool-cases (q.closed || leb q.max_size (length q.heap))) [
  | inl b ↦ rw b (v, refl, Perm.refl (tasks q.heap))
  | inr b ↦ rw b (pushed-IsQueue q t v (ground (arith, b)), refl, push-perm q.heap t)
]

-- A queue that is not empty gives the task that none of the others precedes, by priority and then by age, and keeps
-- the others; it stays in order and within its size.
pub dequeue_first :
    (q : PriorityQueue)
    → IsQueue q
    → 0 < length q.heap
    → (t : Task) × (r : PriorityQueue) × (dequeue q ≡ taken t r)
      × (all (λ u. not (less u t)) (tasks r.heap) ≡ true)
      × Perm (t ∷ tasks r.heap) (tasks q.heap)
      × IsQueue r
unfolding dequeue
dequeue_first q v some_task =
    let more : (length q.heap == 0) ≡ false = ground arith in
    (
      (Heap.pop q.heap).0.task,
      record q { heap = (Heap.pop q.heap).1 },
      rw more refl,
      pop_first q.heap some_task v.ordered,
      pop-perm q.heap some_task,
      popped-IsQueue q v some_task,
    )
