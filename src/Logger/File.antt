-- ===== src/Logger/File.antt =====
-- logger/file.go: the core of the file logger over the files of its directory, each with its size.
use amp_sentinel.Prelude.{
  ℕ, zero, suc, ◌+◌, ◌*◌, Bool, true, false, not, ◌&&◌, List, [], ◌∷◌, ◌++◌, Option, none, some,
  length, is_some, leb, ◌==◌, select, map, if◌then◌else◌,
}
use mathlib.Core.List.{reverse}
use amp_sentinel.Prelude.Int.{ℤ, pos, negsuc, leb_ℤ}
use amp_sentinel.Prelude.Text.{Text, utf8, text_eq, one_of}
use amp_sentinel.Intake.Handler.{decimal}
use amp_sentinel.Diagnosis.Parse.{strip_prefix}
use amp_sentinel.Store.Table.{find_record, put_record}
pub mod Fresh
pub mod Rotation
pub mod Bounded

abbrev pub Files : Type 0
Files = List (Text × ℕ)

abbrev pub file_name : Text × ℕ → Text
file_name (name, size) = name

-- The handle: nil, one that is closed, or one that appends to a file.
pub data Handle : Type 0 where
  no_file stale : Handle
  appends : Text → Handle

pub record FileCore : Type 0 where
  pub max_size_mb : ℤ
  pub max_age_days : ℤ
  pub file : Handle
  pub current_day : Text
  pub written : ℕ

unfoldable pub log_name : Text → Text
log_name day = utf8 "sentinel-" ++ (day ++ utf8 ".log")

unfoldable pub rotated_name : Text → ℕ → Text
rotated_name day i = utf8 "sentinel-" ++ (day ++ (b'.' ∷ decimal (pos i) ++ utf8 ".log"))

unfoldable pub is_file : Files → Text → Bool
is_file fs name = is_some (find_record file_name fs name)

unfoldable pub size_of : Option (Text × ℕ) → ℕ
size_of none = 0
size_of (some (name, n)) = n

unfoldable pub remove_file : Files → Text → Files
remove_file fs name = select (λ f. not (text_eq (file_name f) name)) fs

-- os.Rename, whose error is ignored: where it fails, as without the old file, it changes nothing.
unfoldable pub rename_found : Option (Text × ℕ) → Files → Text → Text → Files
rename_found none fs from to = fs
rename_found (some (name, n)) fs from to = put_record file_name (remove_file fs from) (to, n)

unfoldable pub rename_file : Bool → Files → Text → Text → Files
rename_file renames fs from to =
    if renames then rename_found (find_record file_name fs from) fs from to else fs

-- openForDay; `opens` says whether the file can be opened and measured.
unfoldable pub open_for_day : Bool → Text → FileCore → Files → FileCore × Files
open_for_day opens day c fs =
    let name = log_name day in
    let n = size_of (find_record file_name fs name) in
    if opens
    then (
      record c { file = appends name; current_day = day; written = n },
      put_record file_name fs (name, n),
    )
    else (c, fs)

unfoldable pub close_handle : Handle → Handle
close_handle no_file = no_file
close_handle stale = stale
close_handle (appends name) = stale

abbrev pub closed : FileCore → FileCore
closed c = record c { file = close_handle c.file }

-- The loop `for i := 1; ; i++`, with so many rounds left: the first index from `i` on whose file is not there. A Stat
-- that fails for another reason is not modelled.
unfoldable pub next_free : (ℕ → Text) → List Text → ℕ → ℕ → Option ℕ
next_free name there zero i = none
next_free name there (suc n) i =
    let rest = next_free name there n (i + 1) in if one_of there (name i) then rest else some i

unfoldable pub move_aside : Bool → Option ℕ → Text → Files → Files
move_aside renames none day fs = fs
move_aside renames (some i) day fs = rename_file renames fs (log_name day) (rotated_name day i)

unfoldable pub free_index : Text → Files → Option ℕ
free_index day fs = next_free (rotated_name day) (map file_name fs) (length fs + 1) 1

-- `renames` says whether os.Rename succeeds.
unfoldable pub rotate_size_exceeded : Bool → Bool → Text → FileCore → Files → FileCore × Files
rotate_size_exceeded renames opens day c fs =
    open_for_day opens day (closed c) (move_aside renames (free_index day fs) day fs)

-- What stands before the first dot.
unfoldable pub before_dot : Text → Text
before_dot [] = []
before_dot (c ∷ s) = let rest = before_dot s in if c == b'.' then [] else c ∷ rest

unfoldable pub has_suffix : Text → Text → Bool
has_suffix s suffix = is_some (strip_prefix (reverse suffix) (reverse s))

-- Is a file of this name removed? `expired` parses a date, and tells whether it is before the cutoff.
unfoldable pub is_expired : (Text → Option Bool) → Text → Bool
is_expired expired name = elim (strip_prefix (utf8 "sentinel-") name) [
  | none ↦ false
  | some rest ↦ has_suffix name (utf8 ".log") && is_true (expired (before_dot rest))
]
  where
    is_true : Option Bool → Bool
    is_true (some true) = true
    is_true _ = false

unfoldable pub clean_old : (Text → Option Bool) → FileCore → Files → Files
clean_old expired c fs =
    if leb_ℤ c.max_age_days (pos 0)
    then fs
    else select (λ f. not (is_expired expired (file_name f))) fs

unfoldable pub rotate : (Text → Option Bool) → Bool → Text → FileCore → Files → FileCore × Files
rotate expired opens day c fs =
    let (d, gs) = open_for_day opens day (closed c) fs in (d, clean_old expired d gs)

-- The maximum in bytes, where there is one.
unfoldable pub is_full : ℤ → ℕ → Bool
is_full (pos zero) written = false
is_full (pos (suc m)) written = leb (suc m * 1024 * 1024) written
is_full (negsuc m) written = false

-- WriteString, which reports `n` bytes as written; a short write or a failed one has fewer than the line.
unfoldable pub append_line : ℕ → Handle → FileCore → Files → FileCore × Files
append_line n no_file c fs = (c, fs)
append_line n stale c fs = (c, fs)
append_line n (appends name) c fs = (
  record c { written = c.written + n },
  put_record file_name fs (name, size_of (find_record file_name fs name) + n),
)

-- The rotation that precedes a line on a day, if one is due.
unfoldable pub rotate_if_due :
    (Text → Option Bool) → Bool → Bool → Text → FileCore → Files → FileCore × Files
rotate_if_due expired renames opens day c fs =
    if not (text_eq day c.current_day)
    then rotate expired opens day c fs
    else if is_full c.max_size_mb c.written
    then rotate_size_exceeded renames opens day c fs
    else (c, fs)

-- FileLogger.log on a day of a line of which `n` bytes are written.
unfoldable pub log_line :
    (Text → Option Bool) → Bool → Bool → Text → ℕ → FileCore → Files → FileCore × Files
log_line expired renames opens day n c fs =
    let (d, gs) = rotate_if_due expired renames opens day c fs in append_line n d.file d gs
