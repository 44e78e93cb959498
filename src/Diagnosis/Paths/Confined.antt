-- ===== src/Diagnosis/Paths/Confined.antt =====
-- diagnosis/scoring.go, safeJoinUnderRoot: what it accepts lies below the root.
use mathlib.Core.Bool.{xor}
use mathlib.Core.List.{reverse, reverse-cons, reverse-append, reverse-reverse, append_assoc}
use amp_sentinel.Prelude.{
  ◌≡◌, refl, sym, ap, ◌∙◌, ◌⊎◌, inl, inr, Bool, true, false, ◌||◌, List, [], ◌∷◌, ◌++◌, none, some,
  arith, if◌then◌else◌, Bool-cases,
}
use amp_sentinel.Prelude.Text.{Text, text_eq, text_eq_refl, is_empty}
use amp_sentinel.Diagnosis.Paths.{
  FilePath, dot, dot_dot, go_up, enter, enter_all, split, is_rooted, clean, join, strip_common,
  starts_up, rel, escapes, safe_join_under_root,
}

-- A name that stands for an entry of a directory: not empty, not `.` and not `..`.
pub record IsProper (n : Text) : Type 0 where
  pub filled : is_empty n ≡ false
  pub not_dot : text_eq n dot ≡ false
  pub not_up : text_eq n dot_dot ≡ false

pub data AllProper : List Text → Type 0 where
  nil : AllProper []
  cons : {n : Text} {ns : List Text} → IsProper n → AllProper ns → AllProper (n ∷ ns)

AllProper-append : {xs ys : List Text} → AllProper xs → AllProper ys → AllProper (xs ++ ys)
AllProper-append nil q = q
AllProper-append (cons h p) q = cons h (AllProper-append p q)

AllProper-reverse : {xs : List Text} → AllProper xs → AllProper (reverse xs)
AllProper-reverse nil = nil
AllProper-reverse (cons {n} {ns} h p) =
    rw (reverse-cons n ns) (AllProper-append (AllProper-reverse p) (cons h nil))

starts_up-append : (xs ys : List Text) → starts_up xs ≡ true → starts_up (xs ++ ys) ≡ true
unfolding starts_up
starts_up-append [] ys h = cc
starts_up-append (x ∷ xs) ys h = h

starts_up-concat :
    (xs : List Text) (n : Text)
    → text_eq n dot_dot ≡ false
    → starts_up (xs ++ n ∷ []) ≡ true
    → starts_up xs ≡ true
unfolding starts_up
starts_up-concat [] n e h = cc
starts_up-concat (x ∷ xs) n e h = h

-- What `Clean` keeps of a path that is not rooted: proper names only, or `..` below all others.
IsStack : List Text → Type 0
IsStack up = AllProper up ⊎ (starts_up (reverse up) ≡ true)

IsStack-push :
    (n : Text) (up : List Text)
    → starts_up (reverse up) ≡ true
    → starts_up (reverse (n ∷ up)) ≡ true
IsStack-push n up h = rw (reverse-cons n up) (starts_up-append (reverse up) (n ∷ []) h)

go_up-IsStack : (up : List Text) → IsStack up → IsStack (go_up false up)
unfolding go_up starts_up IsStack
go_up-IsStack [] h = inr (text_eq_refl dot_dot)
go_up-IsStack (n ∷ up) (inl (cons p ps)) = rw p.not_up (inl ps)
go_up-IsStack (n ∷ up) (inr h) = elim (Bool-cases (text_eq n dot_dot)) [
  | inl e ↦ rw e (inr (IsStack-push dot_dot (n ∷ up) h))
  | inr e ↦ rw e (inr (starts_up-concat (reverse up) n e (rw (reverse-cons n up) at h)))
]

enter-IsStack : (up : List Text) (n : Text) → IsStack up → IsStack (enter false up n)
unfolding enter IsStack
enter-IsStack up n h = elim (Bool-cases (is_empty n)) [
  | inl e ↦ rw e h
  | inr e ↦ elim (Bool-cases (text_eq n dot)) [
    | inl d ↦ rw (e, d) h
    | inr d ↦ elim (Bool-cases (text_eq n dot_dot)) [
      | inl u ↦ rw (e, d, u) (go_up-IsStack up h)
      | inr u ↦ rw (e, d, u) (pushed (record { filled = e; not_dot = d; not_up = u }) h)
    ]
  ]
]
  where
    pushed : IsProper n → IsStack up → IsStack (n ∷ up)
    pushed p (inl ps) = inl (cons p ps)
    pushed p (inr b) = inr (IsStack-push n up b)

enter_all-IsStack : (up ns : List Text) → IsStack up → IsStack (enter_all false up ns)
unfolding enter_all
enter_all-IsStack up [] h = h
enter_all-IsStack up (n ∷ ns) h = enter_all-IsStack (enter false up n) ns (enter-IsStack up n h)

stack-AllProper :
    (up : List Text) → IsStack up → starts_up (reverse up) ≡ false → AllProper (reverse up)
unfolding IsStack
stack-AllProper up (inl ps) e = AllProper-reverse ps
stack-AllProper up (inr b) e = cc

enter_all-AllProper :
    (rooted : Bool) (ns : List Text)
    → rooted ≡ false
    → starts_up (reverse (enter_all rooted [] ns)) ≡ false
    → AllProper (reverse (enter_all rooted [] ns))
unfolding IsStack
enter_all-AllProper true ns r e = cc
enter_all-AllProper false ns r e = stack-AllProper _ (enter_all-IsStack [] ns (inl nil)) e

-- The names of a cleaned relative path are proper, unless the first is `..`.
pub clean-AllProper :
    (p : Text)
    → (clean p).rooted ≡ false
    → escapes (clean p).names ≡ false
    → AllProper (clean p).names
unfolding clean escapes
clean-AllProper p r e = enter_all-AllProper (is_rooted p) (split p) r e

enter_all-proper :
    (rooted : Bool) (up : List Text) {ns : List Text}
    → AllProper ns
    → enter_all rooted up ns ≡ reverse ns ++ up
unfolding enter_all enter
enter_all-proper rooted up nil = refl
enter_all-proper rooted up (cons {n} {ns} h p) =
    rw (h.filled, h.not_dot, h.not_up)
      (enter_all-proper rooted (n ∷ up) p
        ∙ sym (rw (reverse-cons n ns) (append_assoc (reverse ns) (n ∷ []) up)))

enter_all-append :
    (rooted : Bool) (up ms ns : List Text)
    → enter_all rooted up (ms ++ ns) ≡ enter_all rooted (enter_all rooted up ms) ns
unfolding enter_all
enter_all-append rooted up [] ns = refl
enter_all-append rooted up (m ∷ ms) ns = enter_all-append rooted (enter rooted up m) ms ns

enter_all-join :
    (rooted : Bool) (ms : List Text) {ns : List Text}
    → AllProper ns
    → reverse (enter_all rooted [] (ms ++ ns)) ≡ reverse (enter_all rooted [] ms) ++ ns
enter_all-join rooted ms {ns} h =
    let up = enter_all rooted [] ms in
    ap reverse (enter_all-append rooted [] ms ns ∙ enter_all-proper rooted up h)
    ∙ reverse-append (reverse ns) up
    ∙ ap (◌++◌ (reverse up)) (reverse-reverse ns)

-- Joining proper names to a root appends them to the names of the cleaned root.
join-proper :
    (root : Text) (p : FilePath)
    → p.rooted ≡ false
    → AllProper p.names
    → join root p ≡ record { rooted = (clean root).rooted; names = (clean root).names ++ p.names }
unfolding join clean
join-proper [] p r h = λ i. record { rooted = r i; names = p.names }
join-proper (c ∷ root) p r h = λ i. record {
  rooted = is_rooted (c ∷ root);
  names = enter_all-join (is_rooted (c ∷ root)) (split (c ∷ root)) h i;
}

strip_common-prefix : (bs ts : List Text) → strip_common bs (bs ++ ts) ≡ ([], ts)
unfolding strip_common
strip_common-prefix [] ts = refl
strip_common-prefix (b ∷ bs) ts = rw (text_eq_refl b) (strip_common-prefix bs ts)

rel-below :
    (rooted : Bool) (bs ns : List Text)
    → rel (record { rooted = rooted; names = bs }) (record { rooted = rooted; names = bs ++ ns })
      ≡ some ns
unfolding rel xor
rel-below true bs ns = rw (strip_common-prefix bs ns)
rel-below false bs ns = rw (strip_common-prefix bs ns)

-- A path is accepted exactly if, cleaned, it is relative and does not begin with `..`; the result is then the cleaned
-- root, followed by the names of the cleaned path.
pub safe_join_under_root_lem :
    (root path : Text)
    → safe_join_under_root root path ≡ (
        if (clean path).rooted || escapes (clean path).names
        then none
        else some (record {
          rooted = (clean root).rooted;
          names = (clean root).names ++ (clean path).names;
        }))
unfolding safe_join_under_root
safe_join_under_root_lem root path = elim (Bool-cases (clean path).rooted) [
  | inl r ↦ rw r
  | inr r ↦ elim (Bool-cases (escapes (clean path).names)) [
    | inl e ↦ rw (r, e)
    | inr e ↦ rw (join-proper root (clean path) r (clean-AllProper path r e), rel-below, r, e)
  ]
]

-- Every path that is accepted stays below the root: its names are those of the cleaned root, and
-- then only names that are not empty, `.` or `..`.
pub safe_join_under_root_confined :
    (root path : Text) {full : FilePath}
    → safe_join_under_root root path ≡ some full
    → (full.rooted ≡ (clean root).rooted)
      × (full.names ≡ (clean root).names ++ (clean path).names)
      × AllProper (clean path).names
safe_join_under_root_confined root path h =
    ground (arith, safe_join_under_root_lem root path, clean-AllProper path)
