-- ===== src/Scheduler/Queue.antt =====
-- scheduler/task.go, priorityQueue: a bounded heap that can be closed.
pub mod Priority
use amp_sentinel.Prelude.{
  ℕ, Bool, true, false, ◌&&◌, ◌||◌, not, [], ◌==◌, leb, if◌then◌else◌, length,
}
use amp_sentinel.Scheduler.Task.{Task}
use amp_sentinel.Scheduler.Heap.{Slot, Heap, tasks}
use amp_sentinel.Scheduler.Heap as Heap

-- The mutex makes every operation one step.
pub record PriorityQueue : Type 0 where
  pub heap : Heap
  pub max_size : ℕ
  pub closed : Bool

-- newPriorityQueue
unfoldable pub new_priority_queue : ℕ → PriorityQueue
new_priority_queue n = record { heap = []; max_size = n; closed = false }

unfoldable pub enqueue : PriorityQueue → Task → PriorityQueue × Bool
enqueue q t =
    if q.closed || leb q.max_size (length q.heap)
    then (q, false)
    else (record q { heap = Heap.push q.heap t }, true)

-- What a caller of priorityQueue.pop meets: it sleeps, it is told that the queue is drained, or it gets a task.
pub data Dequeued : Type 0 where
  waits : Dequeued
  drained : Dequeued
  taken : Task → PriorityQueue → Dequeued

unfoldable pub dequeue : PriorityQueue → Dequeued
dequeue q =
    let (s, rest) = Heap.pop q.heap in
    if length q.heap == 0
    then if q.closed then drained else waits
    else taken s.task (record q { heap = rest })

unfoldable pub close : PriorityQueue → PriorityQueue
close q = record q { closed = true }

unfoldable pub len : PriorityQueue → ℕ
len q = length q.heap
