-- ===== src/Tests/Diagnosing.antt =====
-- Examples for the diagnosis: an answer that is cut off, a small diagnosis, its locations, and a report.
use mathlib.Core.Bool.{xor}
use amp_sentinel.Prelude.{
  ◌≤◌, ◌<◌, ◌≡◌, ◌≢◌, ◌⊎◌, ◌↔◌, inl, refl, true, false, ◌||◌, List, [], ◌∷◌, ◌++◌, Option, none,
  some, ltb, if◌then◌else◌, arith,
}
use amp_sentinel.Prelude.Int.{ℤ, pos, negsuc}
use amp_sentinel.Prelude.Text.{Text, utf8, utf8_encode, text_eq}
use amp_sentinel.Prelude.Runes.{
  runes, decode, trim_space, trim_left, trim_right, before_kept, is_space, is_double, is_triple,
  is_quadruple,
}
use amp_sentinel.Intake.Event.{RawEvent, critical}
use amp_sentinel.Diagnosis.Types.{
  DiagnosisJson, Evidence, RootCause, CodeLocation, float_zero, float_one, float_half, high, medium,
  low,
}
use amp_sentinel.Diagnosis.Score.{assess, with_verification, total_of, has_code_evidence}
use amp_sentinel.Diagnosis.Paths.{
  FilePath, clean, escapes, safe_join_under_root, split, split_from, is_rooted, dot, dot_dot, go_up,
  enter, enter_all, join, strip_common, all_up, starts_up, rel, unless_escaping,
}
use amp_sentinel.Diagnosis.Paths.Confined.{
  AllProper, safe_join_under_root_lem, safe_join_under_root_confined,
}
use amp_sentinel.Diagnosis.Verify.{
  Files, verified, verify_code_locations, check_location, check_path, check_file, check_lines,
  count_lines_safe, count_loop, scan_result,
}
use amp_sentinel.Diagnosis.Verify.Sound.{
  AllVerified, verify_code_locations_full, assess-verify_bounds,
}
use amp_sentinel.Diagnosis.Repair.{
  outside, quote_step, is_structural, balance_brackets, quote_runes, extract_json_object,
  skip_blanks, is_trailing,
}
use amp_sentinel.Diagnosis.Repair.Closing.{balance_brackets_closes}
use amp_sentinel.Diagnosis.Repair.Commas.{has_trailing, has_double}
use amp_sentinel.Diagnosis.Repair.Objects.{has_brace, extract_json_object_finds}
use amp_sentinel.Diagnosis.Repair.Grammar.{
  closing, inner, Braced, no_more, quoted, Balanced, no_bracket, plain, none_open, Opened,
  open_object, open_array, closers,
}
use amp_sentinel.Project.Sources.{join_under}
use amp_sentinel.Diagnosis.Heuristics.{session_name}
use amp_sentinel.Diagnosis.Heuristics.Names.{join_under-session_name}
use amp_sentinel.Diagnosis.Parse.{valid, validate_diagnosis_json, parse_diagnosis_json}
use amp_sentinel.Diagnosis.Parse.Valid.{IsValid, IsValid-validate_diagnosis_json}
use amp_sentinel.Diagnosis.Parse.Sound.{
  IsSound, parse_diagnosis_json-IsSound, parse_diagnosis_json_block,
}
use amp_sentinel.Diagnosis.Report.{Report}
use amp_sentinel.Diagnosis.Reuse.{
  can_reuse, may_reuse, commit_match, flag_reused_stale_commit, is_inconclusive,
  build_reused_report,
}
use amp_sentinel.Diagnosis.Reuse.Safe.{IsReusable, can_reuse_iff, build_reused_report-IsReusable}

-- `"a` with an escape at the end, and without one.
abbrev cut_off : Text
cut_off = b'{' ∷ b'"' ∷ b'a' ∷ []

abbrev cut_in_escape : Text
cut_in_escape = b'"' ∷ b'a' ∷ b'\\' ∷ []

abbrev open_brackets : Text
open_brackets = b'{' ∷ b'[' ∷ b'1' ∷ []

-- `{` is open with nothing behind it, and then `[` with `1`.
open_brackets-Opened : Opened (b'[' ∷ b'{' ∷ []) open_brackets
open_brackets-Opened =
    open_array (b'{' ∷ []) (b'{' ∷ []) (b'1' ∷ [])
      (open_object [] [] [] (none_open [] no_bracket) no_bracket)
      (plain b'1' [] (omega arith) (omega arith) (omega arith) (omega arith) (omega arith)
        no_bracket)

balance_brackets_closes_example :
    (balance_brackets open_brackets ≡ open_brackets ++ closers (b'[' ∷ b'{' ∷ []))
    × Balanced (balance_brackets open_brackets)
    × (balance_brackets (balance_brackets open_brackets) ≡ balance_brackets open_brackets)
balance_brackets_closes_example =
    balance_brackets_closes (b'[' ∷ b'{' ∷ []) open_brackets open_brackets-Opened

no_escape : (quote_runes outside (decode (trim_space cut_off))).escaped ≡ false
unfolding quote_runes decode trim_space trim_left trim_right before_kept is_space is_double
    is_triple is_quadruple quote_step outside
no_escape = refl

pending_escape : (quote_runes outside (decode (trim_space cut_in_escape))).escaped ≡ true
unfolding quote_runes decode trim_space trim_left trim_right before_kept is_space is_double
    is_triple is_quadruple quote_step outside
pending_escape = refl

abbrev with_comma : Text
with_comma = b'[' ∷ b'1' ∷ b',' ∷ b' ' ∷ b']' ∷ []

no_double : has_double outside with_comma ≡ false
unfolding has_double outside quote_step is_structural skip_blanks
no_double = refl

no_trailing : has_trailing outside open_brackets ≡ false
unfolding has_trailing outside quote_step is_structural is_trailing
no_trailing = refl

-- `x` stands before the object, whose text is `"}"`, and `y` behind it.
before_brace : has_brace (b'x' ∷ []) ≡ false
unfolding has_brace
before_brace = refl

abbrev brace_in_string : Text
brace_in_string = b'"' ∷ b'}' ∷ b'"' ∷ []

brace_in_string-Braced : Braced brace_in_string
brace_in_string-Braced =
    quoted (b'}' ∷ b'"' ∷ []) [] (inner b'}' (b'"' ∷ []) (omega arith) (omega arith) closing)
      no_more

extract_json_object_finds_example :
    (extract_json_object ((b'x' ∷ []) ++ (b'{' ∷ brace_in_string ++ b'}' ∷ b'y' ∷ []))
      ≡ b'{' ∷ brace_in_string ++ b'}' ∷ [])
    × (extract_json_object ((b'x' ∷ []) ++ b'{' ∷ brace_in_string) ≡ b'{' ∷ brace_in_string)
    × (extract_json_object (b'x' ∷ []) ≡ [])
extract_json_object_finds_example =
    extract_json_object_finds (b'x' ∷ []) brace_in_string (b'y' ∷ []) before_brace
      brace_in_string-Braced

abbrev root : Text
root = b'/' ∷ b's' ∷ []

abbrev winding : Text
winding = b'a' ∷ b'/' ∷ b'.' ∷ b'.' ∷ b'/' ∷ b'b' ∷ []

abbrev joined : FilePath
joined = record { rooted = true; names = (b's' ∷ []) ∷ (b'b' ∷ []) ∷ [] }

winding-joined : safe_join_under_root root winding ≡ some joined
unfolding safe_join_under_root clean escapes split split_from is_rooted dot dot_dot go_up enter
    enter_all join strip_common all_up starts_up rel unless_escaping utf8 utf8_encode text_eq xor
winding-joined = refl

safe_join_under_root_confined_example :
    (true ≡ (clean root).rooted)
    × (joined.names ≡ (clean root).names ++ (clean winding).names)
    × AllProper (clean winding).names
safe_join_under_root_confined_example = safe_join_under_root_confined root winding winding-joined

safe_join_under_root_lem_example : safe_join_under_root root winding ≡ (
    if (clean winding).rooted || escapes (clean winding).names
    then none
    else some (record {
      rooted = (clean root).rooted;
      names = (clean root).names ++ (clean winding).names;
    }))
safe_join_under_root_lem_example = safe_join_under_root_lem root winding

-- Every path is a file of three lines.
abbrev short_files : Files
short_files = record {
  stat = λ p. some false;
  open_scan = λ p. some (record { lines = 3; fails = false });
}

abbrev location : CodeLocation
location = record { file = winding; line_start = pos 2; line_end = pos 3; reason = [] }

location_verified : check_location short_files root location ≡ verified
unfolding check_location check_path check_file check_lines count_lines_safe count_loop scan_result
    safe_join_under_root clean escapes split split_from is_rooted dot dot_dot go_up enter enter_all
    join strip_common all_up starts_up rel unless_escaping utf8 utf8_encode text_eq xor
location_verified = refl

verify_code_locations_full_example :
    ((verify_code_locations short_files root (location ∷ [])).0 ≡ pos 20)
    ↔ ((0 < 1) × AllVerified short_files root (location ∷ []))
verify_code_locations_full_example = verify_code_locations_full short_files root (location ∷ [])

abbrev evidence : Evidence
evidence = record { type = []; detail = b'd' ∷ []; file = []; line_start = pos 0; line_end = pos 0 }

abbrev cause : RootCause
cause = record {
  rank = pos 1;
  hypothesis = b'h' ∷ [];
  evidence = evidence ∷ [];
  counter_evidence = [];
  verification_steps = [];
}

abbrev diagnosis : DiagnosisJson
diagnosis = record {
  schema_version = [];
  summary = b'f' ∷ b'u' ∷ b'l' ∷ b'l' ∷ [];
  conclusion = record { has_issue = true; confidence = float_half; confidence_label = medium };
  root_causes = cause ∷ [];
  code_locations = location ∷ [];
  remediations = [];
  next_actions = [];
  non_code_factors = [];
  auto_fixed_evidence_types = [];
}

abbrev verification : ℤ × List Text
verification = verify_code_locations short_files root diagnosis.code_locations

assess-verify_bounds_example :
    ((assess diagnosis verification.0 verification.1).normalized ≤ 100)
    × ((assess diagnosis verification.0 verification.1).max_possible
        ≡ (if ltb 0 1 then 90 else if has_code_evidence diagnosis then 100 else 80))
    × (((assess diagnosis verification.0 verification.1).normalized ≡ 100) ↔ (
        total_of (with_verification diagnosis verification.0 verification.1)
        ≡ (assess diagnosis verification.0 verification.1).max_possible))
assess-verify_bounds_example = assess-verify_bounds short_files root diagnosis

diagnosis-IsValid : IsValid diagnosis
unfolding runes decode is_double is_triple is_quadruple float_zero float_one float_half medium high
    low utf8 utf8_encode text_eq
diagnosis-IsValid = record {
  summary_filled = refl;
  summary_short = omega arith;
  confidence_low = ground arith;
  confidence_high = ground arith;
  label_known = refl;
  has_causes = omega arith;
  typed = ((inl refl, tt), tt);
}

diagnosis_accepted : validate_diagnosis_json diagnosis ≡ valid diagnosis
diagnosis_accepted = IsValid-validate_diagnosis_json diagnosis diagnosis-IsValid

-- A reader that finds the diagnosis in every text.
abbrev reader : Text → Option DiagnosisJson
reader text = some diagnosis

cut_off_parsed : parse_diagnosis_json reader cut_off ≡ some diagnosis
cut_off_parsed = parse_diagnosis_json_block reader cut_off refl refl diagnosis-IsValid

parse_diagnosis_json-IsSound_example : IsSound reader cut_off diagnosis
parse_diagnosis_json-IsSound_example = parse_diagnosis_json-IsSound reader cut_off cut_off_parsed

abbrev report : Report
report = record {
  id = [];
  task_id = b't' ∷ [];
  incident_id = [];
  project_key = [];
  project_name = [];
  summary = [];
  raw_result = [];
  has_issue = true;
  confidence = [];
  session_id = [];
  duration_ms = 1;
  num_turns = 1;
  tools_used = [];
  skills_used = [];
  tainted = false;
  notified = true;
  diagnosed_at = 5;
  usage = none;
  structured_result = none;
  quality_score = record {
    normalized = 80;
    max_possible = 90;
    schema = 20;
    evidence = 20;
    code_verify = pos 20;
    coherence = 15;
    actionable = 0;
    non_code_path = negsuc 0;
    flags = [];
  };
  original_confidence = pos 0;
  final_confidence = pos 0;
  final_conf_label = [];
  fingerprint = [];
  commit_hash = b'a' ∷ [];
  reused_from_id = [];
  prompt_version = [];
}

abbrev other_commit : Text
other_commit = b'b' ∷ []

abbrev incident : RawEvent
incident = record {
  id = b'e' ∷ [];
  project_key = [];
  payload = [];
  source = [];
  severity = [];
  title = [];
  received_at = 9;
}

can_reuse_iff_example :
    (can_reuse (some report) other_commit [] 60 ≡ some (flag_reused_stale_commit ∷ [])) ↔ (
      IsReusable report 60
      × ((((other_commit ≡ []) ⊎ (report.commit_hash ≡ []) ⊎ (other_commit ≡ report.commit_hash))
            × ((flag_reused_stale_commit ∷ []) ≡ []))
          ⊎ ((other_commit ≢ [])
              × (report.commit_hash ≢ [])
              × (other_commit ≢ report.commit_hash)
              × ([] ≢ critical)
              × ((flag_reused_stale_commit ∷ []) ≡ (flag_reused_stale_commit ∷ [])))))
can_reuse_iff_example = can_reuse_iff report other_commit [] 60 (flag_reused_stale_commit ∷ [])

reused_stale : can_reuse (some report) other_commit [] 60 ≡ some (flag_reused_stale_commit ∷ [])
unfolding can_reuse may_reuse is_inconclusive commit_match critical utf8 utf8_encode text_eq
reused_stale = refl

abbrev reused : Report
reused = build_reused_report report incident [] other_commit [] (flag_reused_stale_commit ∷ []) 10

build_reused_report-IsReusable_example :
    IsReusable reused 60
    × (reused.quality_score.flags ≡ report.quality_score.flags ++ (flag_reused_stale_commit ∷ []))
    × (reused.reused_from_id ≡ report.task_id)
    × (reused.has_issue ≡ report.has_issue)
    × (reused.final_confidence ≡ report.final_confidence)
build_reused_report-IsReusable_example =
    build_reused_report-IsReusable report incident [] other_commit [] [] 60 10
      (flag_reused_stale_commit ∷ []) reused_stale

abbrev session_dir : FilePath
session_dir = record { rooted = true; names = (b's' ∷ []) ∷ [] }

-- The event's id is `../x`.
join_under-session_name_example :
    join_under session_dir (session_name (b'.' ∷ b'.' ∷ b'/' ∷ b'x' ∷ []) (b'p' ∷ []) (pos 7))
    ≡ record session_dir {
      names =
          session_dir.names
          ++ session_name (b'.' ∷ b'.' ∷ b'/' ∷ b'x' ∷ []) (b'p' ∷ []) (pos 7) ∷ [];
    }
join_under-session_name_example =
    join_under-session_name (b'.' ∷ b'.' ∷ b'/' ∷ b'x' ∷ []) (b'p' ∷ []) (pos 7) session_dir
