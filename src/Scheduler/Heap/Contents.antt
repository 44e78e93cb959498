-- ===== src/Scheduler/Heap/Contents.antt =====
-- scheduler/task.go, taskHeap: no operation loses a task or makes one up, and every slot knows its place.
use mathlib.Core.List.{Perm, map-append, append-nil, perm_middle}
use mathlib.Core.List.Perm
use native.Mathlib.Decide.{dec_lt}
use amp_sentinel.Prelude.{
  ℕ, zero, suc, ◌+◌, ◌-◌, ◌*◌, ◌≤◌, ◌<◌, ◌≡◌, refl, sym, ap, ◌∙◌, inl, inr, not, ◌||◌, List, [],
  ◌∷◌, ◌++◌, arith, leb, ◌==◌, if◌then◌else◌, Bool-cases, length, set, take, get_or, length-set,
  length-append, length-take, get_or-set, get_or-append, get_or-append_last, get_or-take,
  take-append_last, set-perm,
}
use amp_sentinel.Prelude.Int.{pos, negsuc}
use amp_sentinel.Scheduler.Task.{Task}
use amp_sentinel.Scheduler.Heap.{
  Slot, Heap, no_slot, slot_at, task_at, swap, parent, less_at, up_loop, up, first_child, down_loop,
  down, push, pop, tasks,
}

pub length-swap : (h : Heap) (i j : ℕ) → length (swap h i j) ≡ length h
unfolding swap
length-swap h i j = length-set (set h i _) j _ ∙ length-set h i _

pub slot_at-swap :
    (h : Heap) (i j c : ℕ)
    → i < length h
    → j < length h
    → slot_at (swap h i j) c ≡ (
        if j == c
        then record { task = task_at h i; index = pos j }
        else if i == c
        then record { task = task_at h j; index = pos i }
        else slot_at h c)
unfolding swap slot_at
slot_at-swap h i j c hi hj =
    let b = record (get_or h j no_slot) { index = pos i } in
    let a = record (get_or h i no_slot) { index = pos j } in
    rw (
      get_or-set (set h i b) j c a no_slot (rw (length-set h i b) hj),
      get_or-set h i c b no_slot hi,
    )

map-set : (h : Heap) (i : ℕ) (s : Slot) → tasks (set h i s) ≡ set (tasks h) i s.task
map-set [] i s = refl
map-set (x ∷ h) zero s = refl
map-set (x ∷ h) (suc i) s = ap (◌∷◌ x.task) (map-set h i s)

task_at-tasks : (h : Heap) (i : ℕ) → get_or (tasks h) i no_slot.task ≡ task_at h i
unfolding slot_at
task_at-tasks [] i = refl
task_at-tasks (x ∷ h) zero = refl
task_at-tasks (x ∷ h) (suc i) = task_at-tasks h i

length-tasks : (h : Heap) → length (tasks h) ≡ length h
length-tasks [] = refl
length-tasks (x ∷ h) = ap suc (length-tasks h)

-- Exchanging two entries of a list keeps its contents.
exchange-perm :
    (xs : List Task) (i j : ℕ) (a b d : Task)
    → i < length xs
    → j < length xs
    → get_or xs i d ≡ a
    → get_or xs j d ≡ b
    → Perm (set (set xs i b) j a) xs
exchange-perm xs i j a b d hi hj ea eb =
    let ys = set xs i b in
    let at : get_or ys j d ≡ b = ground (arith, get_or-set xs i j b d hi) in
    let second = rw at at (set-perm ys j a d (rw (length-set xs i b) hj)) in
    Perm.cons_inv (Perm.trans second (rw ea at (set-perm xs i b d hi)))

tasks-swap_perm :
    (h : Heap) (i j : ℕ) → i < length h → j < length h → Perm (tasks (swap h i j)) (tasks h)
unfolding swap
tasks-swap_perm h i j hi hj =
    let b = record (slot_at h j) { index = pos i } in
    rw (map-set (set h i b) j (record (slot_at h i) { index = pos j }), map-set h i b)
      (exchange-perm (tasks h) i j (task_at h i) (task_at h j) no_slot.task (rw (length-tasks h) hi)
        (rw (length-tasks h) hj) (task_at-tasks h i) (task_at-tasks h j))

-- Every slot of the slice holds its position.
abbrev pub IsIndexed : Heap → Type 0
IsIndexed h = (c : ℕ) → c < length h → (slot_at h c).index ≡ pos c

-- `g` is `h` rearranged.
pub record Rearranged (h g : Heap) : Type 0 where
  pub same_length : length g ≡ length h
  pub same_tasks : Perm (tasks g) (tasks h)
  pub indexed : IsIndexed h → IsIndexed g

pub Rearranged-refl : (h : Heap) → Rearranged h h
Rearranged-refl h = record {
  same_length = refl;
  same_tasks = Perm.refl (tasks h);
  indexed = λ v. v;
}

pub Rearranged-trans : {f g h : Heap} → Rearranged f g → Rearranged g h → Rearranged f h
Rearranged-trans p q = record {
  same_length = q.same_length ∙ p.same_length;
  same_tasks = Perm.trans q.same_tasks p.same_tasks;
  indexed = λ v. q.indexed (p.indexed v);
}

pub swap-Rearranged : (h : Heap) (i j : ℕ) → i < length h → j < length h → Rearranged h (swap h i j)
swap-Rearranged h i j hi hj = record {
  same_length = length-swap h i j;
  same_tasks = tasks-swap_perm h i j hi hj;
  indexed = λ v c hc. ground (arith, slot_at-swap h i j c hi hj, length-swap h i j, v c);
}

pub up_loop-Rearranged : (k : ℕ) (h : Heap) (j : ℕ) → j < length h → Rearranged h (up_loop k h j)
unfolding up_loop
up_loop-Rearranged zero h j hj = Rearranged-refl h
up_loop-Rearranged (suc k) h j hj =
    elim (Bool-cases (parent j == j || not (less_at h j (parent j)))) [
      | inl e ↦ rw e (Rearranged-refl h)
      | inr e ↦
          let hi : parent j < length h = omega arith in
          rw e (
            Rearranged-trans (swap-Rearranged h (parent j) j hi hj) (
              up_loop-Rearranged k (swap h (parent j) j) (parent j)
                (omega (arith, length-swap h (parent j) j))))
    ]

first_child-lt : (h : Heap) (i n : ℕ) → 2 * i + 1 < n → first_child h i n < n
unfolding first_child
first_child-lt h i n p = ground arith

pub down_loop-Rearranged :
    (k : ℕ) (h : Heap) (i n : ℕ) → i < length h → n ≤ length h → Rearranged h (down_loop k h i n)
unfolding down_loop
down_loop-Rearranged zero h i n hi hn = Rearranged-refl h
down_loop-Rearranged (suc k) h i n hi hn = elim (Bool-cases (leb n (2 * i + 1))) [
  | inl e ↦ rw e (Rearranged-refl h)
  | inr e ↦ elim (Bool-cases (less_at h (first_child h i n) i)) [
    | inl b ↦
        let j = first_child h i n in
        let below : j < n = first_child-lt h i n (ground arith) in
        let size = length-swap h i j in
        rw (e, b)
          (Rearranged-trans (swap-Rearranged h i j hi (omega arith))
            (down_loop-Rearranged k (swap h i j) j n (omega (arith, size)) (omega (arith, size))))
    | inr b ↦ rw (e, b) (Rearranged-refl h)
  ]
]

-- The slice that heap.Push sifts, with the new task last.
abbrev pub appended : Heap → Task → Heap
appended h t = h ++ record { task = t; index = pos (length h) } ∷ []

pub push-Rearranged : (h : Heap) (t : Task) → Rearranged (appended h t) (push h t)
unfolding push up
push-Rearranged h t =
    up_loop-Rearranged (length h + 1) (appended h t) (length h)
      (omega (arith, length-append h (record { task = t; index = pos (length h) } ∷ [])))

concat-perm : (xs : List Task) (t : Task) → Perm (xs ++ t ∷ []) (t ∷ xs)
concat-perm xs t = rw (append-nil xs) at (perm_middle {a = t} xs [])

appended-tasks : (h : Heap) (t : Task) → tasks (appended h t) ≡ tasks h ++ t ∷ []
appended-tasks h t = map-append (λ s. s.task) h (record { task = t; index = pos (length h) } ∷ [])

-- Pushing adds one task.
pub push-perm : (h : Heap) (t : Task) → Perm (tasks (push h t)) (t ∷ tasks h)
push-perm h t =
    Perm.trans (push-Rearranged h t).same_tasks (rw (appended-tasks h t) (concat-perm (tasks h) t))

appended-IsIndexed : (h : Heap) (t : Task) → IsIndexed h → IsIndexed (appended h t)
unfolding slot_at
appended-IsIndexed h t v c hc = elim (dec_lt c (length h)) [
  | yes l ↦
      rw (get_or-append h (record { task = t; index = pos (length h) } ∷ []) c no_slot l) (v c l)
  | no g ↦
      let last : c ≡ length h =
        omega (arith, length-append h (record { task = t; index = pos (length h) } ∷ [])) in
      rw (last, get_or-append_last h (record { task = t; index = pos (length h) }) no_slot)
]

pub push-IsIndexed : (h : Heap) (t : Task) → IsIndexed h → IsIndexed (push h t)
push-IsIndexed h t v = (push-Rearranged h t).indexed (appended-IsIndexed h t v)

-- The slice that heap.Pop takes the last slot from.
abbrev pub sifted : Heap → ℕ → Heap
sifted h n = down (swap h 0 n) 0 n

pub sifted-Rearranged : (h : Heap) (n : ℕ) → length h ≡ n + 1 → Rearranged h (sifted h n)
unfolding down
sifted-Rearranged h n e =
    let size = length-swap h 0 n in
    Rearranged-trans (swap-Rearranged h 0 n (omega arith) (omega arith))
      (down_loop-Rearranged (n + 1) (swap h 0 n) 0 n (omega (arith, size)) (omega (arith, size)))

pub pop_lem :
    (h : Heap) (n : ℕ)
    → length h ≡ n + 1
    → pop h ≡ (record (slot_at (sifted h n) n) { index = negsuc 0 }, take n (sifted h n))
unfolding pop
pop_lem h n e = let last : length h - 1 ≡ n = omega arith in rw last

last_split : (h : Heap) (n : ℕ) → length h ≡ n + 1 → take n h ++ slot_at h n ∷ [] ≡ h
unfolding slot_at
last_split h n e = take-append_last n h no_slot e

-- Popping takes one task out, and keeps the others.
pub pop-perm : (h : Heap) → 0 < length h → Perm ((pop h).0.task ∷ tasks (pop h).1) (tasks h)
pop-perm h p =
    let n = length h - 1 in
    let size : length h ≡ n + 1 = omega arith in
    let r = sifted-Rearranged h n size in
    let g = sifted h n in
    let split = map-append (λ s. s.task) (take n g) (slot_at g n ∷ []) in
    let joined : tasks (take n g) ++ task_at g n ∷ [] ≡ tasks g =
      sym split ∙ ap tasks (last_split g n (r.same_length ∙ size)) in
    rw (pop_lem h n size) (
      Perm.trans (Perm.symm (concat-perm (tasks (take n g)) (task_at g n)))
        (rw joined r.same_tasks))

pub slot_at-take : (n : ℕ) (h : Heap) (c : ℕ) → c < n → slot_at (take n h) c ≡ slot_at h c
unfolding slot_at
slot_at-take n h c p = get_or-take n h c no_slot p

pub pop-IsIndexed : (h : Heap) → 0 < length h → IsIndexed h → IsIndexed (pop h).1
pop-IsIndexed h p v =
    let n = length h - 1 in
    let size : length h ≡ n + 1 = omega arith in
    let r = sifted-Rearranged h n size in
    rw (pop_lem h n size) (λ c hc.
      let below : c < n = omega (arith, length-take n (sifted h n), hc) in
      rw (slot_at-take n (sifted h n) c below)
        (r.indexed v c (omega (arith, r.same_length, below))))

pub length-push : (h : Heap) (t : Task) → length (push h t) ≡ length h + 1
length-push h t =
    (push-Rearranged h t).same_length
    ∙ length-append h (record { task = t; index = pos (length h) } ∷ [])

pub length-pop : (h : Heap) → 0 < length h → length (pop h).1 + 1 ≡ length h
length-pop h p =
    let n = length h - 1 in
    let size : length h ≡ n + 1 = omega arith in
    let r = sifted-Rearranged h n size in
    rw (pop_lem h n size) (omega (arith, length-take n (sifted h n), r.same_length))
