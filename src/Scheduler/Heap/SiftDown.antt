-- ===== src/Scheduler/Heap/SiftDown.antt =====
-- container/heap, down: it restores the order below a slot.
use amp_sentinel.Prelude.{
  ℕ, zero, suc, ◌+◌, ◌*◌, ◌≤◌, ◌<◌, ◌≡◌, ◌≢◌, ◌⊎◌, refl, ◌∙◌, inl, inr, true, false, arith, leb,
  ◌==◌, if◌then◌else◌, Bool-cases, length,
}
use amp_sentinel.Scheduler.Heap.{Heap, task_at, swap, parent, less_at, first_child, down_loop}
use amp_sentinel.Scheduler.Heap.Contents.{length-swap}
use amp_sentinel.Scheduler.Heap.Precedence.{less_asym, less_trans, task_at-swap, IsOrdered}

-- Heap order but for slot `i` and its children.
pub record Lowered (n i : ℕ) (h : Heap) : Type 0 where
  pub others : (c : ℕ) → 0 < c → c < n → parent c ≢ i → less_at h c (parent c) ≡ false
  pub below : (c : ℕ) → 0 < c → c < n → 0 < i → parent c ≡ i → less_at h c (parent i) ≡ false

-- No child comes before the one that is chosen.
pub first_child_first :
    (h : Heap) (i n c : ℕ) → 0 < c → c < n → parent c ≡ i → less_at h c (first_child h i n) ≡ false
unfolding first_child
first_child_first h i n c pc hc e =
    let irr = less_asym (task_at h c) (task_at h c) in
    let side : (c ≡ 2 * i + 1) ⊎ (c ≡ 2 * i + 1 + 1) = omega arith in
    let asym = less_asym (task_at h (2 * i + 1 + 1)) (task_at h (2 * i + 1)) in
    ground (arith, side, irr, asym)

pub first_child-parent :
    (h : Heap) (i n : ℕ)
    → 2 * i + 1 < n
    → (i < first_child h i n) × (first_child h i n < n) × (parent (first_child h i n) ≡ i)
unfolding first_child
first_child-parent h i n p = ground arith

pub Lowered-step :
    (n i j : ℕ) (h : Heap)
    → n ≤ length h
    → 0 < j
    → j < n
    → parent j ≡ i
    → Lowered n i h
    → less_at h j i ≡ true
    → ((c : ℕ) → 0 < c → c < n → parent c ≡ i → less_at h c j ≡ false)
    → Lowered n j (swap h i j)
Lowered-step n i j h size pj hj pi r before chosen =
    let at : (c : ℕ)
        → task_at (swap h i j) c
          ≡ (if j == c then task_at h i else if i == c then task_at h j else task_at h c) =
      λ c. task_at-swap h i j c (omega arith) (omega arith) in
    let after = less_asym (task_at h j) (task_at h i) before in
    record {
      others = λ c pc hc ne.
          ground
            (arith, at c, at (parent c), after, r.others c pc hc, r.below j pj hj, chosen c pc hc);
      below = λ c pc hc _ up_c. ground (arith, at c, at (parent j), r.others c pc hc);
    }

pub down_loop-IsOrdered :
    (k n : ℕ) (h : Heap) (i : ℕ)
    → n ≤ length h
    → i < length h
    → n < i + k
    → Lowered n i h
    → IsOrdered n (down_loop k h i n)
unfolding down_loop
down_loop-IsOrdered zero n h i size hi fuel r = λ c pc hc. r.others c pc hc (omega arith)
down_loop-IsOrdered (suc k) n h i size hi fuel r = elim (Bool-cases (leb n (2 * i + 1))) [
  | inl e ↦ rw e (λ c pc hc. r.others c pc hc (ground arith))
  | inr e ↦
      let j = first_child h i n in
      let place = first_child-parent h i n (ground arith) in
      elim (Bool-cases (less_at h j i)) [
        | inl b ↦
            rw (e, b)
              (down_loop-IsOrdered k n (swap h i j) j (omega (arith, length-swap h i j))
                (omega (arith, length-swap h i j, place)) (omega (arith, place))
                (Lowered-step n i j h size (omega (arith, place)) place.1 place.2 r b
                  (first_child_first h i n)))
        | inr b ↦
            rw (e, b)
              (λ c pc hc.
                let chain = less_trans (task_at h c) (task_at h j) (task_at h i) in
                ground (arith, chain, first_child_first h i n c pc hc, r.others c pc hc, b))
      ]
]

-- Sifting down to `n` leaves the slots from `n` on alone.
pub down_loop-above :
    (k n : ℕ) (h : Heap) (i : ℕ)
    → n < length h
    → i < n
    → task_at (down_loop k h i n) n ≡ task_at h n
unfolding down_loop
down_loop-above zero n h i size hi = refl
down_loop-above (suc k) n h i size hi = elim (Bool-cases (leb n (2 * i + 1))) [
  | inl e ↦ rw e refl
  | inr e ↦
      let j = first_child h i n in
      let place = first_child-parent h i n (ground arith) in
      elim (Bool-cases (less_at h j i)) [
        | inl b ↦
            rw (e, b)
              (down_loop-above k n (swap h i j) j (omega (arith, length-swap h i j)) place.1
                ∙ ground (arith, task_at-swap h i j n (omega arith) (omega (arith, place)), place))
        | inr b ↦ rw (e, b) refl
      ]
]

pub down_loop-idle : (k n : ℕ) (h : Heap) (i : ℕ) → n < 2 * i + 2 → down_loop k h i n ≡ h
unfolding down_loop
down_loop-idle zero n h i p = refl
down_loop-idle (suc k) n h i p = ground arith
