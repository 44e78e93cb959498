-- ===== src/Scheduler/Heap/Precedence.antt =====
-- scheduler/task.go, taskHeap.Less as an order, and what heap order is.
use amp_sentinel.Prelude.{ℕ, ◌<◌, ◌≡◌, true, false, arith, ◌==◌, if◌then◌else◌, length}
use amp_sentinel.Scheduler.Task.{Task, less}
use amp_sentinel.Scheduler.Heap.{Heap, task_at, swap, parent, less_at}
use amp_sentinel.Scheduler.Heap.Contents.{slot_at-swap}

pub less_asym : (s t : Task) → less s t ≡ true → less t s ≡ false
unfolding less
less_asym s t p = ground arith

pub less_irrefl : (t : Task) → less t t ≡ false
unfolding less
less_irrefl t = ground arith

-- Not to come before is transitive.
pub less_trans : (s t u : Task) → less s t ≡ false → less t u ≡ false → less s u ≡ false
unfolding less
less_trans s t u p q = ground arith

pub task_at-swap :
    (h : Heap) (i j c : ℕ)
    → i < length h
    → j < length h
    → task_at (swap h i j) c
      ≡ (if j == c then task_at h i else if i == c then task_at h j else task_at h c)
task_at-swap h i j c hi hj = ground (arith, slot_at-swap h i j c hi hj)

-- The slots below `n` stand in heap order.
abbrev pub IsOrdered : ℕ → Heap → Type 0
IsOrdered n h = (c : ℕ) → 0 < c → c < n → less_at h c (parent c) ≡ false
