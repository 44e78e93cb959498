-- ===== src/Scheduler/Heap.antt =====
-- scheduler/task.go, taskHeap, with container/heap: Push and Pop on a slice. A slot is a task with its
-- position in the heap (-1 once it is taken out).
pub mod Contents
pub mod Precedence
pub mod SiftUp
pub mod SiftDown
pub mod Order
use amp_sentinel.Prelude.{
  ℕ, zero, suc, ◌+◌, ◌-◌, ◌*◌, ◌/◌, Bool, not, ◌&&◌, ◌||◌, List, [], ◌∷◌, ◌++◌, Option, none, some,
  ltb, leb, ◌==◌, if◌then◌else◌, length, set, take, get_or, map,
}
use amp_sentinel.Prelude.Int.{ℤ, pos, negsuc}
use amp_sentinel.Scheduler.Task.{Task, pending, less}

pub record Slot : Type 0 where
  pub task : Task
  pub index : ℤ

abbrev pub Heap : Type 0
Heap = List Slot

-- `h[i]`. Every index below lies in the slice; past its end this is a slot that is not read.
unfoldable pub no_slot : Slot
no_slot = record {
  task = record {
    id = [];
    event = record {
      id = [];
      project_key = [];
      payload = [];
      source = [];
      severity = [];
      title = [];
      received_at = 0;
    };
    priority = 0;
    status = pending;
    retry_count = 0;
    max_retries = 0;
    created_at = 0;
    started_at = 0;
    finished_at = 0;
    error = [];
  };
  index = negsuc 0;
}

unfoldable pub slot_at : Heap → ℕ → Slot
slot_at h i = get_or h i no_slot

abbrev pub task_at : Heap → ℕ → Task
task_at h i = (slot_at h i).task

-- taskHeap.Less
abbrev pub less_at : Heap → ℕ → ℕ → Bool
less_at h i j = less (task_at h i) (task_at h j)

-- taskHeap.Swap
unfoldable pub swap : Heap → ℕ → ℕ → Heap
swap h i j =
    let a = slot_at h i in
    let b = slot_at h j in set (set h i (record b { index = pos i })) j (record a { index = pos j })

abbrev pub parent : ℕ → ℕ
parent j = (j - 1) / 2

-- heap.up: the position falls, so the fuel `j + 1` is enough.
unfoldable pub up_loop : ℕ → Heap → ℕ → Heap
up_loop zero h j = h
up_loop (suc k) h j =
    let i = parent j in
    let rest = up_loop k (swap h i j) i in if i == j || not (less_at h j i) then h else rest

unfoldable pub up : Heap → ℕ → Heap
up h j = up_loop (j + 1) h j

-- The child that heap.down compares: the left one, or the right one if it exists and comes first.
unfoldable pub first_child : Heap → ℕ → ℕ → ℕ
first_child h i n =
    let left = 2 * i + 1 in
    let right = left + 1 in if ltb right n && less_at h right left then right else left

-- heap.down: the position rises, so the fuel `n + 1` is enough.
unfoldable pub down_loop : ℕ → Heap → ℕ → ℕ → Heap
down_loop zero h i n = h
down_loop (suc k) h i n =
    let j = first_child h i n in
    let rest = down_loop k (swap h i j) j n in
    if leb n (2 * i + 1) then h else if not (less_at h j i) then h else rest

unfoldable pub down : Heap → ℕ → ℕ → Heap
down h i n = down_loop (n + 1) h i n

-- heap.Push, with taskHeap.Push
unfoldable pub push : Heap → Task → Heap
push h t = let n = length h in up (h ++ record { task = t; index = pos n } ∷ []) n

-- heap.Pop, with taskHeap.Pop, on a heap that is not empty.
unfoldable pub pop : Heap → Slot × Heap
pop h =
    let n = length h - 1 in
    let sifted = down (swap h 0 n) 0 n in
    (record (slot_at sifted n) { index = negsuc 0 }, take n sifted)

-- The tasks of a heap, in the order of the slice.
abbrev pub tasks : Heap → List Task
tasks = map (λ s. s.task)
