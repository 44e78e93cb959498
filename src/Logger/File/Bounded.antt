-- ===== src/Logger/File/Bounded.antt =====
-- logger/file.go, log: how large a file gets.
use amp_sentinel.Prelude.{
  ℕ, suc, ◌+◌, ◌*◌, ◌<◌, ◌≤◌, ◌≡◌, refl, sym, ap, ◌∙◌, Bool, true, false, not, Option, some, leb,
  arith, if◌then◌else◌,
}
use mathlib.Core.Path.{subst}
use amp_sentinel.Prelude.Int.{pos}
use amp_sentinel.Prelude.Text.{Text, text_eq, text_eq_refl}
use amp_sentinel.Store.Table.{find_record, find_record-put_record}
use amp_sentinel.Logger.File.{
  Files, file_name, appends, FileCore, log_name, rotated_name, is_file, size_of, rename_file,
  open_for_day, closed, move_aside, rotate_size_exceeded, is_full, append_line, rotate,
  rotate_if_due, log_line,
}
use amp_sentinel.Logger.File.Fresh.{free_index_least}
use amp_sentinel.Logger.File.Rotation.{find-open_for_day, base_gone}

-- What the core knows of the file that it appends to.
pub record IsCurrent (day : Text) (c : FileCore) (fs : Files) : Type 0 where
  pub this_day : c.current_day ≡ day
  pub handle : c.file ≡ appends (log_name day)
  pub measured : find_record file_name fs (log_name day) ≡ some (log_name day, c.written)

appended :
    (day : Text) (n : ℕ) (c : FileCore) (fs : Files)
    → IsCurrent day c fs
    → let (d, gs) = append_line n (appends (log_name day)) c fs in
      IsCurrent day d gs × (d.written ≡ c.written + n)
unfolding append_line size_of
appended day n c fs h = (
  record {
    this_day = h.this_day;
    handle = h.handle;
    measured =
        find_record-put_record file_name fs
          (log_name day, size_of (find_record file_name fs (log_name day)) + n) (log_name day)
        ∙ rw (text_eq_refl (log_name day), h.measured) refl;
  },
  refl,
)

append_line-IsCurrent :
    (day : Text) (n : ℕ) (c : FileCore) (fs : Files)
    → IsCurrent day c fs
    → let (d, gs) = append_line n c.file c fs in IsCurrent day d gs × (d.written ≡ c.written + n)
append_line-IsCurrent day n c fs h =
    subst
      (λ f. let (d, gs) = append_line n f c fs in IsCurrent day d gs × (d.written ≡ c.written + n))
      (sym h.handle) (appended day n c fs h)

-- Opening the day's file again measures it.
opened-IsCurrent :
    (day : Text) (c : FileCore) (fs : Files)
    → let (d, gs) = open_for_day true day (closed c) fs in
      IsCurrent day d gs × (d.written ≡ size_of (find_record file_name fs (log_name day)))
unfolding open_for_day
opened-IsCurrent day c fs = (
  record {
    this_day = refl;
    handle = refl;
    measured =
        find-open_for_day true day (closed c) fs (log_name day)
        ∙ rw (text_eq_refl (log_name day)) refl;
  },
  refl,
)

-- A rotation empties the day's file if that can be renamed, and leaves its size if not.
abbrev size_after : Bool → ℕ → ℕ
size_after renames n = if renames then 0 else n

aside_size :
    (renames : Bool) (day : Text) (c : FileCore) (fs : Files)
    → IsCurrent day c fs
    → (i : ℕ) → is_file fs (rotated_name day i) ≡ false
    → size_of (find_record file_name (move_aside renames (some i) day fs) (log_name day))
      ≡ size_after renames c.written
aside_size true day c fs h i free = base_gone true day c fs c.written h.measured i free
aside_size false day c fs h i free = unfold move_aside rename_file size_of in ap size_of h.measured

rotated-IsCurrent :
    (renames : Bool) (day : Text) (c : FileCore) (fs : Files)
    → IsCurrent day c fs
    → let (d, gs) = rotate_size_exceeded renames true day c fs in
      IsCurrent day d gs × (d.written ≡ size_after renames c.written)
unfolding rotate_size_exceeded
rotated-IsCurrent renames day c fs h =
    let (i, found, low, free, taken) = free_index_least day fs in
    let opened = opened-IsCurrent day c (move_aside renames (some i) day fs) in
    subst
      (λ o.
        let (d, gs) = open_for_day true day (closed c) (move_aside renames o day fs) in
        IsCurrent day d gs × (d.written ≡ size_after renames c.written))
      (sym found) (opened.0, opened.1 ∙ aside_size renames day c fs h i free)

module _ (expired : Text → Option Bool) (renames : Bool) (day : Text) (m : ℕ) (c : FileCore)
    (fs : Files) (limited : c.max_size_mb ≡ pos (suc m)) (h : IsCurrent day c fs) where
  abbrev limit : ℕ
  limit = suc m * 1024 * 1024

  abbrev IsRoomy : FileCore × Files → Type 0
  IsRoomy (d, gs) = IsCurrent day d gs × (d.written < (if renames then limit else c.written + 1))

  size_checked :
      (full : Bool)
      → full ≡ leb limit c.written
      → IsRoomy (if full then rotate_size_exceeded renames true day c fs else (c, fs))
  size_checked true e = let r = rotated-IsCurrent renames day c fs h in (r.0, ground (arith, r.1))
  size_checked false e = (h, ground (arith, e))

  full_limited : is_full c.max_size_mb c.written ≡ leb limit c.written
  unfolding is_full
  full_limited = ap (λ x. is_full x c.written) limited

  rotate_if_due-IsRoomy : IsRoomy (rotate_if_due expired renames true day c fs)
  unfolding rotate_if_due
  rotate_if_due-IsRoomy =
      let today : text_eq day c.current_day ≡ true =
        ap (text_eq day) h.this_day ∙ text_eq_refl day in
      subst
        (λ b. IsRoomy (
          if not b
          then rotate expired true day c fs
          else if is_full c.max_size_mb c.written
          then rotate_size_exceeded renames true day c fs
          else (c, fs)))
        (sym today) (size_checked (is_full c.max_size_mb c.written) full_limited)

  -- With a maximum of `m + 1` megabytes and files that can be opened, a line of `k` bytes on the day of the current file, of which `n` are
  -- written, leaves that file with less than the maximum and the line, if a full file can be renamed; if it cannot, with at most the line
  -- more than before, whatever the maximum. The core's counter is the file's size either way.
  pub log_line-bounded :
      (k n : ℕ)
      → n ≤ k
      → let (d, gs) = log_line expired renames true day n c fs in
        IsCurrent day d gs
        × (d.written < (if renames then suc m * 1024 * 1024 + k else c.written + k + 1))
  unfolding log_line
  log_line-bounded k n short =
      let (current, room) = rotate_if_due-IsRoomy in
      let line = append_line-IsCurrent day n _ _ current in
      (line.0, ground (arith, short, room, line.1))
