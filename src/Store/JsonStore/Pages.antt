-- ===== src/Store/JsonStore/Pages.antt =====
-- store/json.go, ListEvents: the pages of a list, one after the other.
use native.Mathlib.Nat.{suc-mul}
use amp_sentinel.Prelude.{
  ℕ, zero, suc, ◌+◌, ◌*◌, ◌<◌, ◌≤◌, ◌≡◌, refl, ap, inl, inr, List, [], ◌∷◌, ◌++◌, leb, length, take,
  drop, select, arith, Bool-cases,
}
use amp_sentinel.Prelude.Int.{pos}
use amp_sentinel.Store.Records.{Event, EventFilter}
use amp_sentinel.Store.JsonStore.{JsonData, matches_event, limit_of, offset_of, page, list_events}

take_none : {A : Type 0} (m : ℕ) → ◌≡◌ {A = List A} (take m []) []
take_none zero = refl
take_none (suc m) = refl

take-drop : {A : Type 0} (n m : ℕ) (xs : List A) → take n xs ++ take m (drop n xs) ≡ take (n + m) xs
take-drop zero m xs = let e : zero + m ≡ m = omega arith in rw e refl
take-drop (suc n) m [] = let e : suc n + m ≡ suc (n + m) = omega arith in rw e (take_none m)
take-drop (suc n) m (x ∷ xs) =
    let e : suc n + m ≡ suc (n + m) = omega arith in rw e (ap (◌∷◌ x) (take-drop n m xs))

drop_all : {A : Type 0} (n : ℕ) (xs : List A) → length xs ≤ n → drop n xs ≡ []
drop_all zero [] h = refl
drop_all zero (x ∷ xs) h = absurd (omega arith)
drop_all (suc n) [] h = refl
drop_all (suc n) (x ∷ xs) h = drop_all n xs (omega arith)

-- A page is what is taken after what is dropped, past the end too.
page-take :
    (m : ℕ) (offset : ℕ) (xs : List Event)
    → page (pos (suc m)) (pos offset) xs ≡ take (suc m) (drop offset xs)
unfolding page limit_of offset_of
page-take m offset xs = elim (Bool-cases (leb (length xs) offset)) [
  | inl b ↦ rw (b, drop_all offset xs (ground (arith, b))) refl
  | inr b ↦ rw b refl
]

list_events_page :
    (sort : List Event → List Event) (d : JsonData) (f : EventFilter) (m offset : ℕ)
    → list_events sort d (record f { limit = pos (suc m); offset = pos offset })
      ≡ take (suc m) (drop offset (sort (select (matches_event f) d.events)))
unfolding list_events matches_event
list_events_page sort d f m offset = page-take m offset (sort (select (matches_event f) d.events))

-- The first `k` pages of `n` entries.
unfoldable pub first_pages : (List Event → List Event) → JsonData → EventFilter → ℕ → ℕ → List Event
first_pages sort d f n zero = []
first_pages sort d f n (suc k) =
    first_pages sort d f n k
    ++ list_events sort d (record f { limit = pos n; offset = pos (k * n) })

-- Asked page by page, with pages of `n` entries, ListEvents gives the sorted events that match the filter without a gap
-- and without a repetition.
pub first_pages-take :
    (sort : List Event → List Event) (d : JsonData) (f : EventFilter) (n k : ℕ)
    → 0 < n
    → first_pages sort d f n k ≡ take (k * n) (sort (select (matches_event f) d.events))
unfolding first_pages
first_pages-take sort d f zero k p = absurd (omega arith)
first_pages-take sort d f (suc m) zero p = let e : 0 * suc m ≡ 0 = omega arith in rw e refl
first_pages-take sort d f (suc m) (suc k) p =
    let e : suc k * suc m ≡ k * suc m + suc m = suc-mul k (suc m) in
    rw (first_pages-take sort d f (suc m) k p, list_events_page sort d f m (k * suc m), e)
      (take-drop (k * suc m) (suc m) (sort (select (matches_event f) d.events)))
