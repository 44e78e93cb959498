-- ===== src/Intake/RateLimit/Bound.antt =====
-- intake/handler.go, checkRateLimit: how many events of one project pass within an hour.
use amp_sentinel.Prelude.{
  ℕ, zero, suc, ◌+◌, ◌-◌, ◌*◌, ◌≤◌, ◌<◌, ◌≡◌, refl, ap, ◌∙◌, Bool, true, false, ◌&&◌, inl, inr,
  List, [], ◌∷◌, Option, none, some, ltb, if◌then◌else◌, arith, Bool-cases,
}
use amp_sentinel.Prelude.Int.{ℤ, pos, negsuc}
use amp_sentinel.Prelude.Text.{Text, text_eq, text_eq_iff}
use amp_sentinel.Intake.Clock.{has_passed, hour}
use amp_sentinel.Intake.RateLimit.{
  RateEntry, RateTable, Shards, rate_step, put, check_rate_limit, clean_rate, unless_hour_passed,
}
use amp_sentinel.Intake.RateLimit.Sharding.{flat, check_rate_limit-flat}

-- The handler's use of the shards: the check of an event of a project, or a clean-up, with the clock.
pub data RateAction : Type 0 where
  limits : Text → ℕ → RateAction
  expires : ℕ → RateAction

-- The events of project `k` that pass, counted.
unfoldable pub admitted : ℤ → Text → Shards → List RateAction → ℕ
admitted limit k s [] = 0
admitted limit k s (limits key now ∷ rest) =
    let (t, ok) = check_rate_limit s limit key now in
    let others = admitted limit k t rest in if ok && text_eq key k then others + 1 else others
admitted limit k s (expires now ∷ rest) = admitted limit k (clean_rate s now) rest

-- The clock stays in the hour from `a`.
unfoldable pub InHour : ℕ → List RateAction → Type 0
InHour a [] = Unit
InHour a (limits key now ∷ rest) = (a ≤ now) × (now < a + hour) × InHour a rest
InHour a (expires now ∷ rest) = (a ≤ now) × (now < a + hour) × InHour a rest

-- The events that may pass in one window; the first one always does.
unfoldable pub allowed : ℤ → ℕ
allowed (pos zero) = 1
allowed (pos (suc n)) = suc n
allowed (negsuc n) = 1

-- What is left in the hour from `a`: of the window in the table, and a whole window if that one began before.
unfoldable budget : ℕ → ℕ → Option RateEntry → ℕ
budget a most none = most
budget a most (some e) = (most - e.count) + (if ltb e.window_at a then most else 0)

unfoldable as_count : Bool → ℕ
as_count true = 1
as_count false = 0

rate_step-budget :
    (a : ℕ) (limit : ℤ) (o : Option RateEntry) (now : ℕ)
    → a ≤ now
    → now < a + hour
    → as_count (rate_step limit o now).1 + budget a (allowed limit) (rate_step limit o now).0
      ≤ budget a (allowed limit) o
unfolding rate_step budget allowed as_count has_passed
rate_step-budget a (pos zero) none now le lt = ground arith
rate_step-budget a (pos (suc n)) none now le lt = ground arith
rate_step-budget a (negsuc n) none now le lt = ground arith
rate_step-budget a (pos zero) (some e) now le lt = ground arith
rate_step-budget a (pos (suc n)) (some e) now le lt = ground arith
rate_step-budget a (negsuc n) (some e) now le lt = ground arith

clean-budget :
    (a most : ℕ) (o : Option RateEntry) (now : ℕ)
    → now < a + hour
    → budget a most (unless_hour_passed now o) ≤ budget a most o
unfolding unless_hour_passed budget has_passed
clean-budget a most none now lt = omega arith
clean-budget a most (some e) now lt = ground arith

budget-le : (a most : ℕ) (o : Option RateEntry) → budget a most o ≤ 2 * most
unfolding budget
budget-le a most none = omega arith
budget-le a most (some e) = ground arith

flat-clean :
    (s : Shards) (now : ℕ) (k : Text)
    → flat (clean_rate s now) k ≡ unless_hour_passed now (flat s k)
unfolding flat clean_rate
flat-clean s now k = refl

put_same :
    (t : RateTable) (k j : Text) (e : Option RateEntry) → text_eq k j ≡ true → put t k e j ≡ e
unfolding put
put_same t k j e p = rw p refl

put_other :
    (t : RateTable) (k j : Text) (e : Option RateEntry) → text_eq k j ≡ false → put t k e j ≡ t j
unfolding put
put_other t k j e p = rw p refl

as_count_if : (ok : Bool) (n : ℕ) → (if ok && true then n + 1 else n) ≡ as_count ok + n
unfolding as_count
as_count_if true n = omega arith
as_count_if false n = omega arith

admitted-budget :
    (limit : ℤ) (k : Text) (a : ℕ) (s : Shards) (acts : List RateAction)
    → InHour a acts
    → admitted limit k s acts ≤ budget a (allowed limit) (flat s k)
unfolding admitted InHour
admitted-budget limit k a s [] h = omega arith
admitted-budget limit k a s (expires now ∷ rest) (le, lt, h) =
    let step = clean-budget a (allowed limit) (flat s k) now lt in
    let later = admitted-budget limit k a (clean_rate s now) rest h in
    omega (arith, step, later, ap (budget a (allowed limit)) (flat-clean s now k))
admitted-budget limit k a s (limits key now ∷ rest) (le, lt, h) =
    let t = (check_rate_limit s limit key now).0 in
    let later = admitted-budget limit k a t rest h in
    let step = rate_step-budget a limit (flat s key) now le lt in
    let (answer, entries) = check_rate_limit-flat s limit key now in
    elim (Bool-cases (text_eq key k)) [
      | inl e ↦
          let same = ap (flat s) ((text_eq_iff key k).0 e) in
          let at =
            ap (budget a (allowed limit))
              (entries k ∙ put_same (flat s) key k (rate_step limit (flat s key) now).0 e) in
          let count = as_count_if (check_rate_limit s limit key now).1 (admitted limit k t rest) in
          rw e (
            omega (
              arith,
              count,
              ap as_count answer,
              at,
              later,
              step,
              ap (budget a (allowed limit)) same,
            ))
      | inr e ↦
          let at =
            ap (budget a (allowed limit))
              (entries k ∙ put_other (flat s) key k (rate_step limit (flat s key) now).0 e) in
          rw e (ground (arith, at, later))
    ]

-- Of the events of one project that are checked within an hour, with the clean-ups in between, at most twice the rate
-- limit pass: a window that began before may be used up, and one more. A limit below 1 lets one event pass in a window.
pub admitted-le :
    (limit : ℤ) (k : Text) (a : ℕ) (s : Shards) (acts : List RateAction)
    → InHour a acts
    → admitted limit k s acts ≤ 2 * allowed limit
admitted-le limit k a s acts h =
    omega (arith, admitted-budget limit k a s acts h, budget-le a (allowed limit) (flat s k))
