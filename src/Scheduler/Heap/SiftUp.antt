-- ===== src/Scheduler/Heap/SiftUp.antt =====
-- container/heap, up: it restores the order above a slot.
use amp_sentinel.Prelude.{
  ℕ, zero, suc, ◌≤◌, ◌<◌, ◌≡◌, ◌≢◌, inl, inr, true, false, arith, ◌==◌, if◌then◌else◌, Bool-cases,
  length,
}
use amp_sentinel.Scheduler.Heap.{Heap, task_at, swap, parent, less_at, up_loop}
use amp_sentinel.Scheduler.Heap.Contents.{length-swap}
use amp_sentinel.Scheduler.Heap.Precedence.{less_asym, less_trans, task_at-swap, IsOrdered}

-- Heap order but for slot `j` and its parent.
pub record Raised (n j : ℕ) (h : Heap) : Type 0 where
  pub others : (c : ℕ) → 0 < c → c < n → c ≢ j → less_at h c (parent c) ≡ false
  pub below : (c : ℕ) → 0 < c → c < n → 0 < j → parent c ≡ j → less_at h c (parent j) ≡ false

pub Raised-step :
    (n j : ℕ) (h : Heap)
    → n ≤ length h
    → 0 < j
    → j < n
    → Raised n j h
    → less_at h j (parent j) ≡ true
    → Raised n (parent j) (swap h (parent j) j)
Raised-step n j h size pj hj r before =
    let at : (c : ℕ)
        → task_at (swap h (parent j) j) c ≡ (
            if j == c
            then task_at h (parent j)
            else if parent j == c
            then task_at h j
            else task_at h c) =
      λ c. task_at-swap h (parent j) j c (omega arith) (omega arith) in
    let after = less_asym (task_at h j) (task_at h (parent j)) before in
    record {
      others = λ c pc hc ne.
          let chain = less_trans (task_at h c) (task_at h (parent j)) (task_at h j) in
          ground (arith, at c, at (parent c), after, r.others c pc hc, r.below c pc hc pj, chain);
      below = λ c pc hc pi up_c.
          let chain =
            less_trans (task_at h c) (task_at h (parent j)) (task_at h (parent (parent j))) in
          ground (
            arith,
            at c,
            at (parent (parent j)),
            r.others c pc hc,
            r.others (parent j) pi (omega arith) (omega arith),
            chain,
          );
    }

pub up_loop-IsOrdered :
    (k n : ℕ) (h : Heap) (j : ℕ)
    → n ≤ length h
    → j < n
    → j < k
    → Raised n j h
    → IsOrdered n (up_loop k h j)
unfolding up_loop
up_loop-IsOrdered zero n h j size hj fuel r = absurd (omega arith)
up_loop-IsOrdered (suc k) n h j size hj fuel r = elim (Bool-cases (parent j == j)) [
  | inl e ↦ rw e (λ c pc hc. r.others c pc hc (ground arith))
  | inr e ↦ elim (Bool-cases (less_at h j (parent j))) [
    | inl b ↦
        rw (e, b)
          (up_loop-IsOrdered k n (swap h (parent j) j) (parent j)
            (omega (arith, length-swap h (parent j) j)) (omega arith) (ground arith)
            (Raised-step n j h size (ground arith) hj r b))
    | inr b ↦
        rw (e, b)
          (λ c pc hc. elim (Bool-cases (c == j)) [
            | inl same ↦ ground (arith, b)
            | inr other ↦ r.others c pc hc (ground arith)
          ])
  ]
]
