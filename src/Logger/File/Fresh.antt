-- ===== src/Logger/File/Fresh.antt =====
-- logger/file.go, rotateSizeExceeded: the search for a name that is not taken ends.
use amp_sentinel.Prelude.{
  ℕ, zero, suc, ◌+◌, ◌-◌, ◌*◌, ◌/◌, ◌%◌, ◌≤◌, ◌<◌, ◌≡◌, refl, sym, ap, ◌∙◌, inl, inr, true, false,
  not, List, [], ◌∷◌, ◌++◌, none, some, length, map, ltb, select, arith, Bool-cases, Option-cases,
}
use amp_sentinel.Prelude.Int.{pos}
use amp_sentinel.Prelude.Text.{Text, utf8, text_eq, text_eq_iff, one_of}
use amp_sentinel.Intake.Handler.{decimal, decimal_loop}
use amp_sentinel.Intake.Fingerprint.Projects.{uncons, same_front}
use amp_sentinel.Logger.File.{Files, file_name, next_free, rotated_name, free_index, is_file}
use amp_sentinel.Store.Table.{find_record}

-- The number that digits stand for.
read_from : ℕ → Text → ℕ
read_from acc [] = acc
read_from acc (c ∷ s) = read_from (10 * acc + (c - b'0')) s

read_from-append_last :
    (acc : ℕ) (s : Text) (c : ℕ) → read_from acc (s ++ c ∷ []) ≡ 10 * read_from acc s + (c - b'0')
unfolding read_from
read_from-append_last acc [] c = refl
read_from-append_last acc (d ∷ s) c = read_from-append_last (10 * acc + (d - b'0')) s c

read_from-decimal_loop : (k n : ℕ) → n < k → read_from 0 (decimal_loop k n) ≡ n
unfolding decimal_loop read_from
read_from-decimal_loop zero n h = absurd (omega arith)
read_from-decimal_loop (suc k) n h = elim (Bool-cases (ltb n 10)) [
  | inl b ↦ rw b (ground arith)
  | inr b ↦
      let rest = read_from-decimal_loop k (n / 10) (ground arith) in
      rw b
        (read_from-append_last 0 (decimal_loop k (n / 10)) (b'0' + n % 10) ∙ rw rest (omega arith))
]

decimal-injective : (i j : ℕ) → decimal (pos i) ≡ decimal (pos j) → i ≡ j
unfolding decimal
decimal-injective i j e =
    sym (read_from-decimal_loop (i + 1) i (omega arith))
    ∙ ap (read_from 0) e
    ∙ read_from-decimal_loop (j + 1) j (omega arith)

cancel_front : (p x y : Text) → p ++ x ≡ p ++ y → x ≡ y
cancel_front [] x y e = e
cancel_front (c ∷ p) x y e = cancel_front p x y (uncons c c (p ++ x) (p ++ y) e).1

rotated_name-injective : (day : Text) (i j : ℕ) → rotated_name day i ≡ rotated_name day j → i ≡ j
unfolding rotated_name
rotated_name-injective day i j e =
    let ext = utf8 ".log" in
    let inner = cancel_front day _ _ (cancel_front (utf8 "sentinel-") _ _ e) in
    decimal-injective i j (
      same_front (decimal (pos i)) (decimal (pos j)) ext ext refl
        (uncons b'.' b'.' (decimal (pos i) ++ ext) (decimal (pos j) ++ ext) inner).1)

-- The names that are not `x`.
without : Text → List Text → List Text
without x ts = select (λ t. not (text_eq x t)) ts

without-same :
    (x y : Text) (ts : List Text) → text_eq y x ≡ false → one_of (without x ts) y ≡ one_of ts y
unfolding without
without-same x y [] h = refl
without-same x y (t ∷ ts) h = elim (Bool-cases (text_eq x t)) [
  | inl e ↦ rw (e, ap (text_eq y) (sym ((text_eq_iff x t).0 e)), h) (without-same x y ts h)
  | inr e ↦ rw e (ground (arith, without-same x y ts h))
]

length-without : (x : Text) (ts : List Text) → length (without x ts) ≤ length ts
unfolding without
length-without x [] = omega arith
length-without x (t ∷ ts) = ground (arith, length-without x ts)

length-without_found :
    (x : Text) (ts : List Text) → one_of ts x ≡ true → length (without x ts) < length ts
unfolding without
length-without_found x [] h = absurd (ground (arith, h))
length-without_found x (t ∷ ts) h = elim (Bool-cases (text_eq x t)) [
  | inl e ↦ rw e (ground (arith, length-without x ts))
  | inr e ↦ rw e (ground (arith, e, h, length-without_found x ts))
]

module _ (name : ℕ → Text) (distinct : (i j : ℕ) → name i ≡ name j → i ≡ j) where
  other_name : (i j : ℕ) → i < j → text_eq (name j) (name i) ≡ false
  other_name i j h = elim (Bool-cases (text_eq (name j) (name i))) [
    | inl e ↦ absurd (omega (arith, h, distinct j i ((text_eq_iff (name j) (name i)).0 e)))
    | inr e ↦ e
  ]

  next_free-without :
      (ts : List Text) (n i j : ℕ)
      → i < j
      → next_free name (without (name i) ts) n j ≡ next_free name ts n j
  unfolding next_free
  next_free-without ts zero i j h = refl
  next_free-without ts (suc n) i j h = ground (
    arith,
    without-same (name i) (name j) ts (other_name i j h),
    next_free-without ts n i (j + 1) (omega arith),
  )

  -- Each round that does not end the search uses up a name.
  next_free_fails : (n i : ℕ) (ts : List Text) → next_free name ts n i ≡ none → n ≤ length ts
  unfolding next_free
  next_free_fails zero i ts h = omega arith
  next_free_fails (suc n) i ts h = elim (Bool-cases (one_of ts (name i))) [
    | inl e ↦ omega (
      arith,
      length-without_found (name i) ts e,
      next_free_fails n (i + 1) (without (name i) ts)
          (next_free-without ts n i (i + 1) (omega arith) ∙ (rw e at h)),
    )
    | inr e ↦ absurd (ground (arith, e, h))
  ]

  next_free_found :
      (n i k : ℕ) (ts : List Text)
      → next_free name ts n i ≡ some k
      → (i ≤ k)
        × (one_of ts (name k) ≡ false)
        × ((j : ℕ) → i ≤ j → j < k → one_of ts (name j) ≡ true)
  unfolding next_free
  next_free_found zero i k ts h = absurd (ground (arith, h))
  next_free_found (suc n) i k ts h = elim (Bool-cases (one_of ts (name i))) [
    | inl e ↦
        let (low, free, taken) = next_free_found n (i + 1) k ts (rw e at h) in
        (
          omega (arith, low),
          free,
          λ j p q. elim (Bool-cases (ltb i j)) [
            | inl b ↦ taken j (ground (arith, b)) q
            | inr b ↦
                let same : i ≡ j = ground (arith, b, p) in
                ap (λ x. one_of ts (name x)) (sym same) ∙ e
          ],
        )
    | inr e ↦
        let same : i ≡ k = ground (arith, rw e at h) in
        (
          omega (arith, same),
          ap (λ x. one_of ts (name x)) (sym same) ∙ e,
          λ j p q. absurd (omega (arith, same, p, q)),
        )
  ]

length-map_names : (fs : Files) → length (map file_name fs) ≡ length fs
length-map_names [] = refl
length-map_names (f ∷ fs) = ap suc (length-map_names fs)

text_eq_sym : (s t : Text) → text_eq s t ≡ text_eq t s
text_eq_sym s t = ground (arith, text_eq_iff s t, text_eq_iff t s)

is_file-names : (fs : Files) (s : Text) → is_file fs s ≡ one_of (map file_name fs) s
unfolding is_file find_record
is_file-names [] s = refl
is_file-names (f ∷ fs) s = ground (arith, text_eq_sym (file_name f) s, is_file-names fs s)

-- Whatever files the directory has, the search for a rotated name ends within one round more than there are files, at the least index
-- from 1 on whose name is not taken.
pub free_index_least :
    (day : Text) (fs : Files)
    → (i : ℕ) × (free_index day fs ≡ some i)
      × (1 ≤ i)
      × (is_file fs (rotated_name day i) ≡ false)
      × ((j : ℕ) → 1 ≤ j → j < i → is_file fs (rotated_name day j) ≡ true)
unfolding free_index
free_index_least day fs =
    let names = map file_name fs in
    elim (Option-cases (next_free (rotated_name day) names (length fs + 1) 1)) [
      | inl e ↦ absurd (
          omega (
            arith,
            length-map_names fs,
            next_free_fails (rotated_name day) (rotated_name-injective day) (length fs + 1) 1 names
                e,
          ))
      | inr (i, e) ↦
          let (low, free, taken) =
            next_free_found (rotated_name day) (rotated_name-injective day) (length fs + 1) 1 i
              names e in
          (
            i,
            e,
            low,
            is_file-names fs (rotated_name day i) ∙ free,
            λ j p q. is_file-names fs (rotated_name day j) ∙ taken j p q,
          )
    ]
