-- ===== src/Intake/Dedup/Spacing.antt =====
-- intake/handler.go: the fingerprints that checkDedupWithWindow lets through are a window apart.
use amp_sentinel.Prelude.{
  ℕ, ◌≤◌, ◌≡◌, ◌≢◌, ◌↔◌, ◌⊎◌, inl, inr, refl, sym, ap, ◌∙◌, Bool, true, false, ◌&&◌, List, [], ◌∷◌,
  Option, none, some, if◌then◌else◌, arith, Bool-cases, Option-cases,
}
use amp_sentinel.Prelude.Int.{ℤ, pos, negsuc}
use amp_sentinel.Prelude.Text.{Text, text_eq, text_eq_iff, text_eq_refl}
use amp_sentinel.Intake.Clock.{has_passed}
use amp_sentinel.Intake.Dedup.{
  DedupEntry, DedupTable, store, int_eq, same_entry, holds, compare_and_swap, decide,
  check_dedup_with_window, unless_passed, clean_dedup,
}

int_eq_iff : (a b : ℤ) → (int_eq a b ≡ true) ↔ (a ≡ b)
unfolding int_eq
int_eq_iff (pos m) (pos n) = ground arith
int_eq_iff (negsuc m) (negsuc n) = ground arith
int_eq_iff (pos m) (negsuc n) = ground arith
int_eq_iff (negsuc m) (pos n) = ground arith

same_entry_refl : (e : DedupEntry) → same_entry e e ≡ true
unfolding same_entry
same_entry_refl e = ground (arith, int_eq_iff e.window e.window)

-- Two goroutines that found the same entry: once one of them has put a new entry in its place, the other is refused,
-- and changes nothing.
pub compare_and_swap_once :
    (t : DedupTable) (k : Text) (old new newer : DedupEntry)
    → (new.at ≢ old.at) ⊎ (new.window ≢ old.window)
    → compare_and_swap (store t k new) k old newer ≡ (store t k new, false)
unfolding compare_and_swap store holds same_entry
compare_and_swap_once t k old new newer differ =
    rw (text_eq_refl k) (ground (arith, differ, int_eq_iff new.window old.window))

-- With no interference the swap succeeds, and the check is a test of the entry.
unfoldable passes : Option DedupEntry → ℤ → ℕ → Bool
passes none window later = true
passes (some e) window later = has_passed e.at window later

check_alone :
    (t : DedupTable) (k : Text) (window : ℤ) (now later : ℕ)
    → check_dedup_with_window t k window now later (λ u. u) ≡ (
        if passes (t k) window later
        then (store t k (record { at = now; window = window }), true)
        else (t, false))
unfolding check_dedup_with_window decide compare_and_swap holds passes
check_alone t k window now later = elim (Option-cases (t k)) [
  | inl e ↦ rw e refl
  | inr (d, e) ↦ ground (arith, e, same_entry_refl d)
]

-- What the handler does to the table: the check of an event, or a clean-up.
pub data Action : Type 0 where
  checks : Text → ℕ → ℕ → Action
  cleans : ℕ → Action

-- The clock goes forward from `from`.
unfoldable pub InOrder : ℕ → List Action → Type 0
InOrder from [] = Unit
InOrder from (checks k now later ∷ rest) = (from ≤ now) × (now ≤ later) × InOrder later rest
InOrder from (cleans now ∷ rest) = (from ≤ now) × InOrder now rest

-- An event that was let through: the two readings of the clock in its check.
pub record Passed : Type 0 where
  pub now : ℕ
  pub later : ℕ

module _ (window : Text → ℤ) where
  -- The events with fingerprint `k` that are let through, in order.
  unfoldable pub passed : Text → DedupTable → List Action → List Passed
  passed k t [] = []
  passed k t (checks j now later ∷ rest) =
      let (u, ok) = check_dedup_with_window t j (window j) now later (λ u. u) in
      let others = passed k u rest in
      if ok && text_eq j k then record { now = now; later = later } ∷ others else others
  passed k t (cleans now ∷ rest) = passed k (clean_dedup t now) rest

-- Each event passes when the window of the one before it is over.
unfoldable pub Spaced : ℤ → Option ℕ → List Passed → Type 0
Spaced w last [] = Unit
Spaced w none (p ∷ ps) = Spaced w (some p.now) ps
Spaced w (some at) (p ∷ ps) = (has_passed at w p.later ≡ true) × Spaced w (some p.now) ps

-- The table remembers the last event that passed, or its window is over at `from`.
data Remembers (w : ℤ) (from : ℕ) : Option ℕ → Option DedupEntry → Type 0 where
  nothing_yet : Remembers w from none none
  remembered : (e : DedupEntry) → e.window ≡ w → Remembers w from (some e.at) (some e)
  forgotten : (at : ℕ) → has_passed at w from ≡ true → Remembers w from (some at) none

later_passed :
    (at : ℕ) (w : ℤ) (m n : ℕ) → m ≤ n → has_passed at w m ≡ true → has_passed at w n ≡ true
unfolding has_passed
later_passed at (pos v) m n le p = ground arith
later_passed at (negsuc v) m n le p = ground arith

Remembers-later :
    (w : ℤ) (m n : ℕ) (last : Option ℕ) (o : Option DedupEntry)
    → m ≤ n
    → Remembers w m last o
    → Remembers w n last o
Remembers-later w m n _ _ le nothing_yet = nothing_yet
Remembers-later w m n _ _ le (remembered e p) = remembered e p
Remembers-later w m n _ _ le (forgotten at p) = forgotten at (later_passed at w m n le p)

Remembers-clean :
    (w : ℤ) (now : ℕ) (last : Option ℕ) (o : Option DedupEntry)
    → Remembers w now last o
    → Remembers w now last (unless_passed now o)
unfolding unless_passed
Remembers-clean w now _ _ nothing_yet = nothing_yet
Remembers-clean w now _ _ (remembered e p) = elim (Bool-cases (has_passed e.at e.window now)) [
  | inl b ↦ rw b (forgotten e.at (rw p at b))
  | inr b ↦ rw b (remembered e p)
]
Remembers-clean w now _ _ (forgotten at p) = forgotten at p

Spaced-head :
    (w : ℤ) (from now later : ℕ) (last : Option ℕ) (o : Option DedupEntry) (ps : List Passed)
    → Remembers w from last o
    → from ≤ later
    → passes o w later ≡ true
    → Spaced w (some now) ps
    → Spaced w last (record { now = now; later = later } ∷ ps)
unfolding Spaced passes
Spaced-head w from now later _ _ ps nothing_yet le p s = s
Spaced-head w from now later _ _ ps (remembered e q) le p s = (p, s)
Spaced-head w from now later _ _ ps (forgotten at q) le p s = (later_passed at w from later le q, s)

cleaned_at :
    {w : ℤ} {from : ℕ} {last : Option ℕ} (t : DedupTable) (k : Text) (now : ℕ)
    → Remembers w from last (unless_passed now (t k))
    → Remembers w from last (clean_dedup t now k)
unfolding clean_dedup
cleaned_at t k now r = r

stored_same :
    {w : ℤ} (t : DedupTable) (j k : Text) (from : ℕ) (e : DedupEntry)
    → text_eq j k ≡ true
    → e.window ≡ w
    → Remembers w from (some e.at) (store t j e k)
unfolding store
stored_same t j k from e p q = rw p (remembered e q)

stored_other :
    {w : ℤ} {from : ℕ} {last : Option ℕ} (t : DedupTable) (j k : Text) (e : DedupEntry)
    → text_eq j k ≡ false
    → Remembers w from last (t k)
    → Remembers w from last (store t j e k)
unfolding store
stored_other t j k e p r = rw p r

Spaced-from :
    (window : Text → ℤ) (k : Text) (from : ℕ) (last : Option ℕ) (t : DedupTable)
    (acts : List Action)
    → Remembers (window k) from last (t k)
    → InOrder from acts
    → Spaced (window k) last (passed window k t acts)
unfolding passed InOrder Spaced
Spaced-from window k from last t [] r o = tt
Spaced-from window k from last t (cleans now ∷ rest) r (le, o) =
    Spaced-from window k now last (clean_dedup t now) rest
      (cleaned_at t k now (
        Remembers-clean (window k) now last (t k)
          (Remembers-later (window k) from now last (t k) le r)))
      o
Spaced-from window k from last t (checks j now later ∷ rest) r (le, lf, o) =
    let kept = Remembers-later (window k) from later last (t k) (omega arith) r in
    elim (Bool-cases (passes (t j) (window j) later)) [
      | inl p ↦ elim (Bool-cases (text_eq j k)) [
        | inl e ↦
            let same : j ≡ k = (text_eq_iff j k).0 e in
            let new : DedupEntry = record { at = now; window = window j } in
            let rest_spaced =
              Spaced-from window k later (some now) (store t j new) rest
                (stored_same t j k later new e (ap window same)) o in
            let open_for : passes (t k) (window k) later ≡ true =
              sym (ap (λ i. passes (t i) (window i) later) same) ∙ p in
            rw (check_alone t j (window j) now later, p, e)
              (Spaced-head (window k) later now later last (t k) _ kept (omega arith) open_for
                rest_spaced)
        | inr e ↦
            rw (check_alone t j (window j) now later, p, e)
              (Spaced-from window k later last (store t j (record { at = now; window = window j }))
                rest (stored_other t j k (record { at = now; window = window j }) e kept) o)
      ]
      | inr p ↦
          rw (check_alone t j (window j) now later, p)
            (Spaced-from window k later last t rest kept o)
    ]

-- On one goroutine whose clock goes forward, with one window for each fingerprint and any clean-ups in between, each
-- event that is let through comes when the window of the last one with its fingerprint that was let through is over.
pub passed-Spaced :
    (window : Text → ℤ) (k : Text) (from : ℕ) (acts : List Action)
    → InOrder from acts
    → Spaced (window k) none (passed window k (λ j. none) acts)
passed-Spaced window k from acts o = Spaced-from window k from none (λ j. none) acts nothing_yet o
