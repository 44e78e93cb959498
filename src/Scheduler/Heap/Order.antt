-- ===== src/Scheduler/Heap/Order.antt =====
-- scheduler/task.go, taskHeap: the order of the heap, which heap.Push and heap.Pop keep.
use amp_sentinel.Prelude.{
  ℕ, length-append, length-take, all, all-perm, all_tail, get_or-append, zero, suc, ◌+◌, ◌-◌, ◌<◌,
  ◌≡◌, refl, ap, ◌∙◌, Bool, true, false, not, [], ◌∷◌, arith, ◌==◌, if◌then◌else◌, length, take,
}
use amp_sentinel.Prelude.Int.{pos}
use amp_sentinel.Scheduler.Task.{Task, less}
use amp_sentinel.Scheduler.Heap.{
  Heap, no_slot, slot_at, task_at, swap, parent, less_at, up, down, push, pop, tasks,
}
use amp_sentinel.Scheduler.Heap.Contents.{
  length-swap, push-Rearranged, pop_lem, sifted, slot_at-take, appended, pop-perm,
}
use amp_sentinel.Scheduler.Heap.Precedence.{less_irrefl, less_trans, task_at-swap, IsOrdered}
use amp_sentinel.Scheduler.Heap.SiftUp.{Raised, up_loop-IsOrdered}
use amp_sentinel.Scheduler.Heap.SiftDown.{
  Lowered, down_loop-IsOrdered, down_loop-above, down_loop-idle,
}

-- A heap's root comes first.
root_first : (k n : ℕ) (h : Heap) (c : ℕ) → c < k → c < n → IsOrdered n h → less_at h c 0 ≡ false
root_first zero n h c fuel hc o = absurd (omega arith)
root_first (suc k) n h zero fuel hc o = less_irrefl (task_at h 0)
root_first (suc k) n h (suc c) fuel hc o =
    less_trans (task_at h (suc c)) (task_at h (parent (suc c))) (task_at h 0)
      (o (suc c) (omega arith) hc) (root_first k n h (parent (suc c)) (omega arith) (omega arith) o)

-- Every task of a heap passes a test that the task of every slot passes.
all_slots :
    (p : Task → Bool) (h : Heap)
    → ((c : ℕ) → c < length h → p (task_at h c) ≡ true)
    → all p (tasks h) ≡ true
unfolding slot_at
all_slots p [] f = refl
all_slots p (x ∷ h) f = rw (f 0 (omega arith)) (all_slots p h (λ c hc. f (suc c) (omega arith)))

appended-Raised :
    (h : Heap) (t : Task) → IsOrdered (length h) h → Raised (length h + 1) (length h) (appended h t)
unfolding slot_at
appended-Raised h t o =
    let at : (c : ℕ) → c < length h → task_at (appended h t) c ≡ task_at h c = λ c hc.
      ap (λ s. s.task)
        (get_or-append h (record { task = t; index = pos (length h) } ∷ []) c no_slot hc) in
    record {
      others = λ c pc hc ne. ground (arith, at c, at (parent c), o c pc);
      below = λ c pc hc pj up_c. absurd (omega arith);
    }

pub push-IsOrdered :
    (h : Heap) (t : Task) → IsOrdered (length h) h → IsOrdered (length (push h t)) (push h t)
unfolding push up
push-IsOrdered h t o =
    let size = length-append h (record { task = t; index = pos (length h) } ∷ []) in
    let whole = (push-Rearranged h t).same_length in
    let sorted =
      up_loop-IsOrdered (length h + 1) (length h + 1) (appended h t) (length h)
        (omega (arith, size)) (omega arith) (omega arith) (appended-Raised h t o) in
    λ c pc hc. sorted c pc (omega (arith, size, whole, hc))

swapped-Lowered :
    (h : Heap) (n : ℕ) → length h ≡ n + 1 → IsOrdered (length h) h → Lowered n 0 (swap h 0 n)
swapped-Lowered h n e o =
    let at : (c : ℕ)
        → task_at (swap h 0 n) c
          ≡ (if n == c then task_at h 0 else if 0 == c then task_at h n else task_at h c) =
      λ c. task_at-swap h 0 n c (omega arith) (omega arith) in
    record {
      others = λ c pc hc ne. ground (arith, at c, at (parent c), o c pc);
      below = λ c pc hc pi up_c. absurd (omega arith);
    }

sifted-IsOrdered :
    (h : Heap) (n : ℕ) → length h ≡ n + 1 → IsOrdered (length h) h → IsOrdered n (sifted h n)
unfolding down
sifted-IsOrdered h n e o =
    let size = length-swap h 0 n in
    down_loop-IsOrdered (n + 1) n (swap h 0 n) 0 (omega (arith, size)) (omega (arith, size))
      (omega arith) (swapped-Lowered h n e o)

sifted-last : (h : Heap) (n : ℕ) → length h ≡ n + 1 → task_at (sifted h n) n ≡ task_at h 0
unfolding down
sifted-last h zero e = ground (
  arith,
  task_at-swap h 0 0 0 (omega arith) (omega arith),
  down_loop-idle (0 + 1) 0 (swap h 0 0) 0 (omega arith),
)
sifted-last h (suc m) e =
    let size = length-swap h 0 (suc m) in
    down_loop-above (suc m + 1) (suc m) (swap h 0 (suc m)) 0 (omega (arith, size)) (omega arith)
    ∙ ground (arith, task_at-swap h 0 (suc m) (suc m) (omega arith) (omega arith))

take-IsOrdered : (n : ℕ) (g : Heap) → IsOrdered n g → IsOrdered n (take n g)
take-IsOrdered n g o =
    λ c pc hc. ground (arith, slot_at-take n g c hc, slot_at-take n g (parent c), o c pc hc)

pub pop-IsOrdered :
    (h : Heap) → 0 < length h → IsOrdered (length h) h → IsOrdered (length (pop h).1) (pop h).1
pop-IsOrdered h p o =
    let n = length h - 1 in
    let size : length h ≡ n + 1 = omega arith in
    let sorted = take-IsOrdered n (sifted h n) (sifted-IsOrdered h n size o) in
    rw (pop_lem h n size) (λ c pc hc. sorted c pc (omega (arith, length-take n (sifted h n), hc)))

pop-task : (h : Heap) → 0 < length h → (pop h).0.task ≡ task_at h 0
pop-task h p =
    let n = length h - 1 in
    let size : length h ≡ n + 1 = omega arith in rw (pop_lem h n size) (sifted-last h n size)

-- The task that is popped from a heap in order is one that none of the tasks left in it precedes.
pub pop_first :
    (h : Heap)
    → 0 < length h
    → IsOrdered (length h) h
    → all (λ t. not (less t (pop h).0.task)) (tasks (pop h).1) ≡ true
pop_first h p o =
    let after : Task → Bool = λ t. not (less t (task_at h 0)) in
    let every = all_slots after h (λ c hc. ap not (root_first (length h) (length h) h c hc hc o)) in
    let moved = all-perm after (pop-perm h p) ∙ every in
    rw (pop-task h p) (all_tail after (pop h).0.task (tasks (pop h).1) moved)
