-- ===== src/Logger/File/Rotation.antt =====
-- logger/file.go, rotateSizeExceeded: what a rotation does to the files.
use amp_sentinel.Prelude.{
  ℕ, ◌≡◌, refl, sym, ap, ◌∙◌, inl, inr, Bool, true, false, [], ◌∷◌, Option, none, some, is_some,
  arith, Bool-cases, if◌then◌else◌,
}
use amp_sentinel.Prelude.Text.{Text, text_eq, text_eq_iff, text_eq_refl}
use amp_sentinel.Store.Table.{find_record, find_record-put_record}
use amp_sentinel.Logger.File.{
  Files, file_name, FileCore, log_name, rotated_name, is_file, size_of, remove_file, rename_found,
  rename_file, open_for_day, closed, move_aside, rotate_size_exceeded,
}
use amp_sentinel.Logger.File.Fresh.{free_index_least}

text_eq_trans : (s t u : Text) → text_eq s t ≡ true → text_eq s u ≡ text_eq t u
text_eq_trans s t u h = ap (λ x. text_eq x u) ((text_eq_iff s t).0 h)

find_record-remove_file :
    (fs : Files) (a k : Text)
    → find_record file_name (remove_file fs a) k
      ≡ (if text_eq a k then none else find_record file_name fs k)
unfolding find_record remove_file
find_record-remove_file [] a k = ground arith
find_record-remove_file (f ∷ fs) a k = elim (Bool-cases (text_eq (file_name f) a)) [
  | inl e ↦ rw e (ground (arith, find_record-remove_file fs a k, text_eq_trans (file_name f) a k e))
  | inr e ↦ elim (Bool-cases (text_eq a k)) [
    | inl g ↦
        let same : a ≡ k = (text_eq_iff a k).0 g in
        let other : text_eq (file_name f) k ≡ false = ap (text_eq (file_name f)) (sym same) ∙ e in
        rw e (ground (arith, find_record-remove_file fs a k, g, other))
    | inr g ↦ rw e (ground (arith, find_record-remove_file fs a k, g))
  ]
]

text_eq_sym : (s t : Text) → text_eq s t ≡ text_eq t s
text_eq_sym s t = ground (arith, text_eq_iff s t, text_eq_iff t s)

pub find-open_for_day :
    (opens : Bool) (day : Text) (c : FileCore) (fs : Files) (s : Text)
    → find_record file_name (open_for_day opens day c fs).1 s ≡ (
        if opens
        then (if text_eq (log_name day) s
            then some (log_name day, size_of (find_record file_name fs (log_name day)))
            else find_record file_name fs s)
        else find_record file_name fs s)
unfolding open_for_day
find-open_for_day true day c fs s =
    find_record-put_record file_name fs
      (log_name day, size_of (find_record file_name fs (log_name day))) s
find-open_for_day false day c fs s = refl

module _ (opens : Bool) (day : Text) (c : FileCore) (fs : Files) (n : ℕ)
    (there : find_record file_name fs (log_name day) ≡ some (log_name day, n)) where
  differ :
      (i : ℕ)
      → is_file fs (rotated_name day i) ≡ false
      → text_eq (rotated_name day i) (log_name day) ≡ false
  unfolding is_file
  differ i free = elim (Bool-cases (text_eq (rotated_name day i) (log_name day))) [
    | inl e ↦
        let same = (text_eq_iff (rotated_name day i) (log_name day)).0 e in
        absurd (ground (arith, free, ap (λ s. is_some (find_record file_name fs s)) same, there))
    | inr e ↦ e
  ]

  find-move_aside :
      (i : ℕ) (s : Text)
      → find_record file_name (move_aside true (some i) day fs) s ≡ (
          if text_eq (rotated_name day i) s
          then some (rotated_name day i, n)
          else if text_eq (log_name day) s
          then none
          else find_record file_name fs s)
  unfolding move_aside rename_file rename_found
  find-move_aside i s = rw there (
      find_record-put_record file_name (remove_file fs (log_name day)) (rotated_name day i, n) s
      ∙ ap (λ o. if text_eq (rotated_name day i) s then some (rotated_name day i, n) else o)
          (find_record-remove_file fs (log_name day) s))

  pub base_gone :
      (i : ℕ)
      → is_file fs (rotated_name day i) ≡ false
      → size_of (find_record file_name (move_aside true (some i) day fs) (log_name day)) ≡ 0
  unfolding size_of
  base_gone i free =
      ap size_of (find-move_aside i (log_name day))
      ∙ rw (differ i free, text_eq_refl (log_name day)) refl

  find-rotated :
      (i : ℕ)
      → is_file fs (rotated_name day i) ≡ false
      → (s : Text)
      → find_record file_name
          (open_for_day opens day (closed c) (move_aside true (some i) day fs)).1
          s
        ≡ (if text_eq (rotated_name day i) s
            then some (rotated_name day i, n)
            else if text_eq (log_name day) s
            then (if opens then some (log_name day, 0) else none)
            else find_record file_name fs s)
  find-rotated i free s =
      let aside = move_aside true (some i) day fs in
      let apart = differ i free in
      let gone : size_of (find_record file_name aside (log_name day)) ≡ 0 = base_gone i free in
      elim (Bool-cases opens) [
        | inl o ↦
            find-open_for_day opens day (closed c) aside s
            ∙ rw (o, gone)
                (ground (
                  arith,
                  o,
                  apart,
                  find-move_aside i s,
                  text_eq_trans (rotated_name day i) s (log_name day),
                  text_eq_sym s (log_name day),
                ))
        | inr o ↦ find-open_for_day opens day (closed c) aside s ∙ rw o (find-move_aside i s)
      ]

  -- The files after a rotation for which `i` is the free index.
  abbrev pub moved_or_kept : Bool → ℕ → Text → Option (Text × ℕ)
  moved_or_kept renames i s =
      if renames
      then (if text_eq (rotated_name day i) s
          then some (rotated_name day i, n)
          else if text_eq (log_name day) s
          then (if opens then some (log_name day, 0) else none)
          else find_record file_name fs s)
      else find_record file_name fs s

  find-kept :
      (s : Text)
      → find_record file_name (open_for_day opens day (closed c) fs).1 s
        ≡ find_record file_name fs s
  unfolding size_of
  find-kept s = elim (Bool-cases (text_eq (log_name day) s)) [
    | inl e ↦
        let same : find_record file_name fs s ≡ some (log_name day, n) =
          ap (find_record file_name fs) (sym ((text_eq_iff (log_name day) s).0 e)) ∙ there in
        elim (Bool-cases opens) [
          | inl o ↦ find-open_for_day opens day (closed c) fs s ∙ rw (o, e, there, same) refl
          | inr o ↦ find-open_for_day opens day (closed c) fs s ∙ rw o refl
        ]
    | inr e ↦ elim (Bool-cases opens) [
      | inl o ↦ find-open_for_day opens day (closed c) fs s ∙ rw (o, e) refl
      | inr o ↦ find-open_for_day opens day (closed c) fs s ∙ rw o refl
    ]
  ]

  rotated_files :
      (renames : Bool) (i : ℕ)
      → is_file fs (rotated_name day i) ≡ false
      → (s : Text)
      → find_record file_name
          (open_for_day opens day (closed c) (move_aside renames (some i) day fs)).1
          s
        ≡ moved_or_kept renames i s
  rotated_files true i free s = find-rotated i free s
  rotated_files false i free s = unfold move_aside rename_file in find-kept s

  -- A rotation for size moves the day's file to a name that was not taken, with its content, and every other file is left as it was; the
  -- day's file is empty again if it can be opened, and is not there if it cannot. If the file cannot be renamed, no file changes.
  pub rotate_size_exceeded-keeps :
      (renames : Bool)
      → (i : ℕ) × (is_file fs (rotated_name day i) ≡ false)
        × ((s : Text)
            → find_record file_name (rotate_size_exceeded renames opens day c fs).1 s
              ≡ moved_or_kept renames i s)
  unfolding rotate_size_exceeded
  rotate_size_exceeded-keeps renames =
      let (i, found, low, free, taken) = free_index_least day fs in
      (
        i,
        free,
        λ s.
            ap
              (λ o.
                find_record file_name
                  (open_for_day opens day (closed c) (move_aside renames o day fs)).1 s)
              found
            ∙ rotated_files renames i free s,
      )
