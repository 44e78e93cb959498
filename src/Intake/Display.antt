-- ===== src/Intake/Display.antt =====
-- intake/types.go: the text that is shown of an event: SanitizeDisplayText, TruncateRunes and
-- ExtractTitle.
use amp_sentinel.Prelude.{
  ℕ, ◌+◌, Bool, true, false, not, ◌&&◌, ◌||◌, List, [], ◌∷◌, ◌++◌, Option, none, some, ltb, leb,
  ◌==◌, if◌then◌else◌, length, take,
}
use amp_sentinel.Prelude.Text.{Text, utf8, is_empty}
use amp_sentinel.Prelude.Runes.{between, runes, from_runes, trim_space}
use amp_sentinel.Diagnosis.Types.{Float64}
use amp_sentinel.Intake.Json.{Json, string, Fields, lookup, find_scalar_field, find_field}
pub mod Truncated

unfoldable pub is_break : ℕ → Bool
is_break r = r == 0x0A || r == 0x0D || r == 0x09

unfoldable pub is_control : ℕ → Bool
is_control r = ltb r 0x20 || between 0x7F 0x9F r

-- The loop of SanitizeDisplayText; `prev_space` is true after a blank that stands for a line break.
unfoldable pub sanitize_runes : Bool → List ℕ → List ℕ
sanitize_runes prev_space [] = []
sanitize_runes prev_space (r ∷ rs) =
    let after_break = sanitize_runes true rs in
    let skipped = sanitize_runes prev_space rs in
    let after_rune = sanitize_runes false rs in
    if is_break r
    then if prev_space then after_break else 0x20 ∷ after_break
    else if is_control r
    then skipped
    else r ∷ after_rune

unfoldable pub sanitize_display_text : Text → Text
sanitize_display_text s = trim_space (from_runes (sanitize_runes false (runes s)))

unfoldable pub truncate_runes : Text → ℕ → Text
truncate_runes s max_len =
    if leb (length (runes s)) max_len then s else from_runes (take max_len (runes s)) ++ utf8 "..."

unfoldable pub title_candidate_fields : List Text
title_candidate_fields =
    utf8 "title"
    ∷ utf8 "alert_name"
    ∷ utf8 "alertname"
    ∷ utf8 "summary"
    ∷ utf8 "subject"
    ∷ utf8 "description"
    ∷ utf8 "error_msg"
    ∷ utf8 "error"
    ∷ utf8 "message"
    ∷ utf8 "msg"
    ∷ []

-- The title that a value gives, if any.
unfoldable pub title_of : Json → Option Text
title_of (string s) =
    let clean = sanitize_display_text s in
    if is_empty s || is_empty clean then none else some (truncate_runes clean 100)
title_of _ = none

unfoldable pub first_title : Fields → List Text → Text
first_title m [] = []
first_title m (f ∷ fs) = elim (title_of (lookup m f)) [ none ↦ first_title m fs | some t ↦ t ]

-- ExtractTitle; `unmarshal` is json.Unmarshal into a map.
unfoldable pub extract_title : (Text → Option Fields) → Text → Text
extract_title unmarshal payload = elim (unmarshal payload) [
  | none ↦ []
  | some m ↦ first_title m title_candidate_fields
]
