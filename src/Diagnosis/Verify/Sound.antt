-- ===== src/Diagnosis/Verify/Sound.antt =====
-- diagnosis/scoring.go, VerifyCodeLocations: what it returns, and what a counted location is.
use native.Mathlib.Nat.{div-le_of_le-mul, le-div_iff_mul-le, le_antisymm}
use amp_sentinel.Prelude.{
  ℕ, ◌+◌, ◌*◌, ◌/◌, ◌≤◌, ◌<◌, ◌≡◌, refl, ◌↔◌, ◌⊎◌, inl, inr, Bool-cases, Bool, true, false, List,
  [], ◌∷◌, Option, none, some, arith, ltb, if◌then◌else◌, length, Option-cases,
}
use amp_sentinel.Prelude.Int.{pos, ltb_ℤ, leb_ℤ}
use amp_sentinel.Prelude.Text.{Text}
use amp_sentinel.Diagnosis.Types.{DiagnosisJson, CodeLocation}
use amp_sentinel.Diagnosis.Paths.{FilePath, safe_join_under_root}
use amp_sentinel.Diagnosis.Score.{assess, with_verification, total_of, has_code_evidence}
use amp_sentinel.Diagnosis.Score.Bounds.{IsVerified, assess_bounds}
use amp_sentinel.Diagnosis.Verify.{
  Files, Verdict, verified, flagged, unreadable, count_lines_safe, max_lines, check_lines,
  check_file, check_path, check_location, count_verdict, flag_verdict, verify_loop,
  verify_code_locations,
}

share-le : (t m : ℕ) → t ≤ m → t * 20 / m ≤ 20
share-le t m h = div-le_of_le-mul m (omega arith)

share_full : (t m : ℕ) → t ≤ m → 0 < m → (t * 20 / m ≡ 20) ↔ (t ≡ m)
share_full t m h p =
    let reach = le-div_iff_mul-le {k = m} {x = 20} {y = t * 20} p in
    (
      λ e. omega (arith, reach.0 (omega arith)),
      λ e. le_antisymm (share-le t m h) (reach.1 (omega arith)),
    )

abbrev is_verified : Verdict → Bool
is_verified verified = true
is_verified (flagged f) = false
is_verified unreadable = false

-- Every location of the list is counted.
abbrev pub AllVerified : Files → Text → List CodeLocation → Type 0
AllVerified fs src_dir [] = Unit {0}
AllVerified fs src_dir (loc ∷ locs) =
    (check_location fs src_dir loc ≡ verified) × AllVerified fs src_dir locs

check_lines-verified :
    (loc : CodeLocation) (o : Option ℕ)
    → check_lines loc o ≡ verified
    → (n : ℕ) × (o ≡ some n)
      × (leb_ℤ loc.line_start (pos n) ≡ true)
      × (leb_ℤ loc.line_end (pos n) ≡ true)
unfolding check_lines
check_lines-verified loc none h = cc
check_lines-verified loc (some n) h = (n, refl, ground arith, ground arith)

module _ (fs : Files) (src_dir : Text) where
  verify_loop-le :
      (locs : List CodeLocation) (n : ℕ) (flags : List Text)
      → (verify_loop fs src_dir locs n flags).0 ≤ n + length locs
  unfolding verify_loop
  verify_loop-le [] n flags = omega arith
  verify_loop-le (loc ∷ locs) n flags =
      let v = check_location fs src_dir loc in
      ground (arith, verify_loop-le locs (count_verdict v n) (flag_verdict v flags))

  verify_loop_full :
      (locs : List CodeLocation) (n : ℕ) (flags : List Text)
      → ((verify_loop fs src_dir locs n flags).0 ≡ n + length locs) ↔ AllVerified fs src_dir locs
  unfolding verify_loop
  verify_loop_full [] n flags = (λ _. tt, λ _. omega arith)
  verify_loop_full (loc ∷ locs) n flags =
      let v = check_location fs src_dir loc in
      let n' = count_verdict v n in
      let flags' = flag_verdict v flags in
      ground (arith, verify_loop-le locs n' flags', verify_loop_full locs n' flags')

  -- The locations score the full 20 exactly if there are some and every one is verified.
  pub verify_code_locations_full :
      (locs : List CodeLocation)
      → ((verify_code_locations fs src_dir locs).0 ≡ pos 20)
        ↔ ((0 < length locs) × AllVerified fs src_dir locs)
  unfolding verify_code_locations
  verify_code_locations_full [] = ground arith
  verify_code_locations_full (loc ∷ locs) = ground (
    arith,
    verify_loop-le (loc ∷ locs) 0 [],
    verify_loop_full (loc ∷ locs) 0 [],
    share_full (verify_loop fs src_dir (loc ∷ locs) 0 []).0 (length (loc ∷ locs)),
  )

  verify_code_locations-IsVerified :
      (d : DiagnosisJson) → IsVerified d (verify_code_locations fs src_dir d.code_locations).0
  unfolding verify_code_locations
  verify_code_locations-IsVerified d =
      let n : (verify_loop fs src_dir d.code_locations 0 []).0 ≤ length d.code_locations =
        omega (arith, verify_loop-le d.code_locations 0 []) in
      ground (
        arith,
        share-le (verify_loop fs src_dir d.code_locations 0 []).0 (length d.code_locations) n,
      )

  -- The score of a diagnosis with its verified locations is at most 100 percent. The points it is taken from are 90 with
  -- code locations, and without them 100 if some evidence claims to be code and 80 if none does. It is 100 percent
  -- exactly when every dimension that applies has full marks.
  pub assess-verify_bounds :
      (d : DiagnosisJson)
      → let v = verify_code_locations fs src_dir d.code_locations in
        let s = assess d v.0 v.1 in
        (s.normalized ≤ 100)
        × (s.max_possible ≡ (
            if ltb 0 (length d.code_locations)
            then 90
            else if has_code_evidence d
            then 100
            else 80))
        × ((s.normalized ≡ 100) ↔ (total_of (with_verification d v.0 v.1) ≡ s.max_possible))
  assess-verify_bounds d =
      let v = verify_code_locations fs src_dir d.code_locations in
      assess_bounds d v.0 v.1 (verify_code_locations-IsVerified d)

  -- A location that is counted names a file that exists below the root and is no directory; if its first line is
  -- positive, the file's lines can be counted, and its first and last lines are among them.
  pub check_location-verified :
      (loc : CodeLocation)
      → check_location fs src_dir loc ≡ verified
      → (path : FilePath) × (safe_join_under_root src_dir loc.file ≡ some path)
        × (fs.stat path ≡ some false)
        × ((ltb_ℤ (pos 0) loc.line_start ≡ false)
            ⊎ ((n : ℕ) × (count_lines_safe fs path max_lines ≡ some n)
                × (leb_ℤ loc.line_start (pos n) ≡ true)
                × (leb_ℤ loc.line_end (pos n) ≡ true)))
  unfolding check_location check_path check_file check_lines
  check_location-verified loc h = elim (Option-cases (safe_join_under_root src_dir loc.file)) [
    | inl e ↦ absurd (ground arith)
    | inr (path, e) ↦ (
      path,
      e,
      ground arith,
      elim (Bool-cases (ltb_ℤ (pos 0) loc.line_start)) [
        | inl t ↦ inr (check_lines-verified loc (count_lines_safe fs path max_lines) (ground arith))
        | inr f ↦ inl f
      ],
    )
  ]
