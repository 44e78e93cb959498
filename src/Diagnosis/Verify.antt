-- ===== src/Diagnosis/Verify.antt =====
-- diagnosis/scoring.go, VerifyCodeLocations and countLinesSafe, over a file system.
pub mod Sound
use amp_sentinel.Prelude.{
  ℕ, suc, zero, ◌+◌, ◌*◌, ◌/◌, Bool, true, false, ◌&&◌, ◌||◌, List, [], ◌∷◌, ◌++◌, Option, none,
  some, ltb, leb, if◌then◌else◌, length,
}
use amp_sentinel.Prelude.Int.{ℤ, pos, negsuc, ltb_ℤ}
use amp_sentinel.Prelude.Text.{Text}
use amp_sentinel.Diagnosis.Types.{CodeLocation, flag_hallucinated_file, flag_hallucinated_line}
use amp_sentinel.Diagnosis.Paths.{FilePath, safe_join_under_root}

-- What a scanner gives for an opened file: so many lines, and then the end or an error.
pub record Scan : Type 0 where
  pub lines : ℕ
  pub fails : Bool

-- `os.Stat` (is it a directory?) and `os.Open` with a line scanner; `none` is an error.
pub record Files : Type 0 where
  pub stat : FilePath → Option Bool
  pub open_scan : FilePath → Option Scan

-- The loop of `countLinesSafe`, over the lines left; the flag says that the limit stopped it.
unfoldable pub count_loop : ℕ → ℕ → ℕ → ℕ × Bool
count_loop zero limit count = (count, false)
count_loop (suc n) limit count =
    let rest = count_loop n limit (count + 1) in
    if leb limit (count + 1) then (count + 1, true) else rest

unfoldable pub scan_result : Scan → ℕ × Bool → Option ℕ
scan_result scan (count, stopped) =
    if stopped then some count else if scan.fails then none else some count

unfoldable pub count_lines_safe : Files → FilePath → ℕ → Option ℕ
unfolding count_loop scan_result
count_lines_safe fs path limit = elim (fs.open_scan path) [
  | none ↦ none
  | some scan ↦ scan_result scan (count_loop scan.lines limit 0)
]

abbrev pub max_lines : ℕ
max_lines = 500000

-- What one round of the loop does: it counts the location, or flags it, or neither.
pub data Verdict : Type 0 where
  verified : Verdict
  flagged : Text → Verdict
  unreadable : Verdict

unfoldable pub check_lines : CodeLocation → Option ℕ → Verdict
check_lines loc none = unreadable
check_lines loc (some count) =
    if ltb_ℤ (pos count) loc.line_start
      || (ltb_ℤ (pos 0) loc.line_end && ltb_ℤ (pos count) loc.line_end)
    then flagged flag_hallucinated_line
    else verified

unfoldable pub check_file : Files → CodeLocation → FilePath → Option Bool → Verdict
check_file fs loc path none = flagged flag_hallucinated_file
check_file fs loc path (some true) = flagged flag_hallucinated_file
check_file fs loc path (some false) =
    if ltb_ℤ (pos 0) loc.line_start
    then check_lines loc (count_lines_safe fs path max_lines)
    else verified

unfoldable pub check_path : Files → CodeLocation → Option FilePath → Verdict
check_path fs loc none = flagged flag_hallucinated_file
check_path fs loc (some path) = check_file fs loc path (fs.stat path)

unfoldable pub check_location : Files → Text → CodeLocation → Verdict
check_location fs src_dir loc = check_path fs loc (safe_join_under_root src_dir loc.file)

abbrev pub count_verdict : Verdict → ℕ → ℕ
count_verdict verified n = n + 1
count_verdict (flagged f) n = n
count_verdict unreadable n = n

abbrev pub flag_verdict : Verdict → List Text → List Text
flag_verdict (flagged f) fs = fs ++ f ∷ []
flag_verdict verified fs = fs
flag_verdict unreadable fs = fs

unfoldable pub verify_loop : Files → Text → List CodeLocation → ℕ → List Text → ℕ × List Text
verify_loop fs src_dir [] count flags = (count, flags)
verify_loop fs src_dir (loc ∷ locs) count flags =
    let v = check_location fs src_dir loc in
    verify_loop fs src_dir locs (count_verdict v count) (flag_verdict v flags)

-- `int(float64(verified) / float64(len(locations)) * 20)` is the whole part of the quotient.
unfoldable pub verify_code_locations : Files → Text → List CodeLocation → ℤ × List Text
verify_code_locations fs src_dir locs =
    let (count, flags) = verify_loop fs src_dir locs 0 [] in
    if leb (length locs) 0 then (negsuc 0, []) else (pos (count * 20 / length locs), flags)
