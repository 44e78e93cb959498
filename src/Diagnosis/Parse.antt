-- ===== src/Diagnosis/Parse.antt =====
-- diagnosis/structured.go, from the raw answer to a validated diagnosis. `json.Unmarshal` into a
-- DiagnosisJson is the parameter `unmarshal`; `none` is its error.
pub mod Valid
pub mod Sound
use mathlib.Core.Option
use amp_sentinel.Prelude.{
  ℕ, Bool, true, false, not, ◌&&◌, ◌||◌, List, [], ◌∷◌, ◌++◌, Option, none, some, ltb, leb, ◌==◌,
  if◌then◌else◌, length, take,
}
use amp_sentinel.Prelude.Int.{ltb_ℤ, leb_ℤ}
use amp_sentinel.Prelude.Text.{Text, utf8, text_eq, is_empty, one_of}
use amp_sentinel.Prelude.Runes.{runes, from_runes, trim_space}
use amp_sentinel.Diagnosis.Types.{
  Float64, DiagnosisJson, Conclusion, RootCause, Evidence, float_zero, float_one, float_half,
  float_0_8, high, medium, low, valid_confidence_labels,
}
use amp_sentinel.Diagnosis.Repair.{fix_trailing_comma, fix_unterminated_string, extract_json_object}

unfoldable pub log_type : Text
unfolding utf8
log_type = utf8 "log"

unfoldable pub valid_evidence_types : List Text
unfolding utf8 log_type
valid_evidence_types = utf8 "code" ∷ log_type ∷ utf8 "stack" ∷ utf8 "config" ∷ []

pub data Invalid : Type 0 where
  summary_required confidence_range no_root_causes : Invalid

pub data Validation : Type 0 where
  valid : DiagnosisJson → Validation
  invalid : Invalid → Validation

unfoldable pub confidence_label_from_value : Float64 → Text
confidence_label_from_value conf =
    if leb_ℤ float_0_8 conf then high else if leb_ℤ float_half conf then medium else low

-- Is the type of an evidence neither empty nor known?
unfoldable pub needs_fix : Evidence → Bool
needs_fix ev = not (is_empty ev.type) && not (one_of valid_evidence_types ev.type)

unfoldable pub fix_evidence : List Evidence → List Evidence
fix_evidence [] = []
fix_evidence (ev ∷ evs) =
    (if needs_fix ev then record ev { type = log_type } else ev) ∷ fix_evidence evs

unfoldable pub fixed_types : List Evidence → List Text
fixed_types [] = []
fixed_types (ev ∷ evs) = (if needs_fix ev then ev.type ∷ [] else []) ++ fixed_types evs

-- The two loops over `d.RootCauses` and their evidence: what they write, and what they append.
unfoldable pub fix_causes : List RootCause → List RootCause
fix_causes [] = []
fix_causes (rc ∷ rcs) = record rc { evidence = fix_evidence rc.evidence } ∷ fix_causes rcs

unfoldable pub fixed_causes : List RootCause → List Text
fixed_causes [] = []
fixed_causes (rc ∷ rcs) = fixed_types rc.evidence ++ fixed_causes rcs

unfoldable pub cut_summary : Text → Text
cut_summary s = if ltb 200 (length (runes s)) then from_runes (take 200 (runes s)) else s

unfoldable pub fix_label : Conclusion → Conclusion
fix_label c =
    if one_of valid_confidence_labels c.confidence_label
    then c
    else record c { confidence_label = confidence_label_from_value c.confidence }

unfoldable pub validate_diagnosis_json : DiagnosisJson → Validation
validate_diagnosis_json d =
    if is_empty d.summary
    then invalid summary_required
    else if ltb_ℤ d.conclusion.confidence float_zero || ltb_ℤ float_one d.conclusion.confidence
    then invalid confidence_range
    else if length d.root_causes == 0
    then invalid no_root_causes
    else valid (record d {
      summary = cut_summary d.summary;
      conclusion = fix_label d.conclusion;
      root_causes = fix_causes d.root_causes;
      auto_fixed_evidence_types = d.auto_fixed_evidence_types ++ fixed_causes d.root_causes;
    })

unfoldable pub to_option : Validation → Option DiagnosisJson
to_option (valid d) = some d
to_option (invalid e) = none

-- What follows the first occurrence of a mark, and what stands before it.
unfoldable pub strip_prefix : Text → Text → Option Text
strip_prefix [] s = some s
strip_prefix (m ∷ mark) [] = none
strip_prefix (m ∷ mark) (c ∷ s) = let rest = strip_prefix mark s in if m == c then rest else none

unfoldable pub or_else : Option Text → Option Text → Option Text
or_else (some s) t = some s
or_else none t = t

unfoldable pub after_mark : Text → Text → Option Text
unfolding strip_prefix or_else
after_mark mark [] = strip_prefix mark []
after_mark mark (c ∷ s) = let rest = after_mark mark s in or_else (strip_prefix mark (c ∷ s)) rest

unfoldable pub before_or : Option Text → ℕ → Option Text → Option Text
before_or (some s) c rest = some []
before_or none c none = none
before_or none c (some t) = some (c ∷ t)

unfoldable pub before_mark : Text → Text → Option Text
unfolding strip_prefix before_or
before_mark mark [] = before_or (strip_prefix mark []) 0 none
before_mark mark (c ∷ s) = before_or (strip_prefix mark (c ∷ s)) c (before_mark mark s)

-- `\s*` of a regular expression.
unfoldable pub skip_white : Text → Text
skip_white [] = []
skip_white (c ∷ s) =
    let rest = skip_white s in
    if c == b'\t' || c == b'\n' || c == 0x0C || c == b'\r' || c == b' ' then rest else c ∷ s

unfoldable pub fence : Text
unfolding utf8
fence = utf8 "```"

unfoldable pub json_fence : Text
unfolding utf8
json_fence = utf8 "```json"

-- The group of `open\s*\n?(.*?)```` at its first match, trimmed. White space is not a mark, so the
-- match begins at the first `open`, or there is none.
unfoldable pub block_after : Option Text → Option Text
block_after none = none
block_after (some rest) = Option.map trim_space (before_mark fence (skip_white rest))

unfoldable pub fenced : Text → Text → Option Text
unfolding block_after
fenced mark raw = block_after (after_mark mark raw)

unfoldable pub starts_object : Text → Bool
starts_object [] = false
starts_object (c ∷ s) = c == b'{'

-- The second expression, and the text itself where neither gives a block.
unfoldable pub code_block_or : Option Text → Text → Text
unfolding starts_object
code_block_or none raw = trim_space raw
code_block_or (some candidate) raw = if starts_object candidate then candidate else trim_space raw

unfoldable pub json_block_or : Option Text → Text → Text
json_block_or (some block) raw = block
json_block_or none raw = code_block_or (fenced fence raw) raw

unfoldable pub extract_json_block : Text → Text
unfolding json_block_or code_block_or
extract_json_block raw = json_block_or (fenced json_fence raw) raw

unfoldable pub repair : Text → Text
repair s = fix_unterminated_string (fix_trailing_comma s)

-- The first of two answers that is there; the second is looked at only then.
abbrev pub ◌orelse◌ : Option DiagnosisJson → Option DiagnosisJson → Option DiagnosisJson
some d orelse o = some d
none orelse o = o

infixr 20 ◌orelse◌
unfoldable pub validated : Option DiagnosisJson → Option DiagnosisJson
unfolding to_option
validated none = none
validated (some d) = to_option (validate_diagnosis_json d)

module _ (unmarshal : Text → Option DiagnosisJson) where
  unfoldable pub parse_and_validate : Text → Option DiagnosisJson
  unfolding validated
  parse_and_validate s = validated (unmarshal s)

  unfoldable pub parse_diagnosis_json : Text → Option DiagnosisJson
  parse_diagnosis_json raw =
      let block = extract_json_block raw in
      let object = extract_json_object raw in
      if is_empty raw
      then none
      else parse_and_validate block
        orelse parse_and_validate (repair block)
        orelse (if not (is_empty object) && not (text_eq object block)
            then parse_and_validate (repair object)
            else none)
