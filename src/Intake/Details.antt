-- ===== src/Intake/Details.antt =====
-- intake/types.go: what a card shows of an event's payload: ExtractDisplayFields, normalizeTime and EscapeLarkMD.
use amp_sentinel.Prelude.{
  ℕ, ◌*◌, ◌^◌, Bool, ◌||◌, List, [], ◌∷◌, Option, none, some, ◌==◌, if◌then◌else◌,
}
use amp_sentinel.Prelude.Int.{pos, ltb_ℤ}
use amp_sentinel.Prelude.Text.{Text, utf8, is_empty}
use amp_sentinel.Diagnosis.Types.{Float64}
use amp_sentinel.Intake.Json.{Json, string, number, Fields, find_scalar_field, find_field}
use amp_sentinel.Intake.Display.{sanitize_display_text, truncate_runes}
pub mod Escaped

pub record DisplayFields : Type 0 where
  pub environment : Text
  pub error_msg : Text
  pub occurred_at : Text
  pub url : Text

unfoldable pub environment_candidates : List Text
environment_candidates =
    utf8 "environment"
    ∷ utf8 "env"
    ∷ utf8 "deploy_env"
    ∷ utf8 "stage"
    ∷ utf8 "labels.env"
    ∷ utf8 "tags.env"
    ∷ []

unfoldable pub error_msg_candidates : List Text
error_msg_candidates =
    utf8 "error_msg" ∷ utf8 "error" ∷ utf8 "message" ∷ utf8 "msg" ∷ utf8 "error_message" ∷ []

unfoldable pub occurred_at_candidates : List Text
occurred_at_candidates =
    utf8 "occurred_at"
    ∷ utf8 "timestamp"
    ∷ utf8 "@timestamp"
    ∷ utf8 "time"
    ∷ utf8 "event_time"
    ∷ utf8 "startsAt"
    ∷ []

unfoldable pub url_candidates : List Text
url_candidates =
    utf8 "url"
    ∷ utf8 "request_url"
    ∷ utf8 "request.url"
    ∷ utf8 "http.url"
    ∷ utf8 "endpoint"
    ∷ utf8 "uri"
    ∷ []

unfoldable pub time_layouts : List Text
time_layouts =
    utf8 "2006-01-02T15:04:05Z07:00"
    ∷ utf8 "2006-01-02T15:04:05.999999999Z07:00"
    ∷ utf8 "2006-01-02T15:04:05"
    ∷ utf8 "2006-01-02 15:04:05"
    ∷ utf8 "2006/01/02 15:04:05"
    ∷ utf8 "2006-01-02T15:04:05-07:00"
    ∷ utf8 "2006-01-02T15:04:05.000Z"
    ∷ utf8 "Jan 2, 2006 3:04:05 PM"
    ∷ []

-- The numbers 10^15, 10^12 and 10^8 in a float64's units.
unfoldable pub ten_to : ℕ → Float64
ten_to n = pos (10 ^ n * 2 ^ 1074)

-- `reformat layout s` is time.Parse of `s` in the layout, and Format in the layout of the card; `format_unix` is the
-- same of a number of seconds, cut to a whole one; `per_thousand` divides a float64 by 1000.
pub record TimeText : Type 0 where
  pub reformat : Text → Text → Option Text
  pub format_unix : Float64 → Text
  pub per_thousand : Float64 → Float64

module _ (times : TimeText) where
  unfoldable pub first_layout : List Text → Text → Text
  first_layout [] s = []
  first_layout (layout ∷ layouts) s =
      let rest = first_layout layouts s in
      elim (times.reformat layout s) [ none ↦ rest | some shown ↦ shown ]

  unfoldable pub normalize_time : Json → Text
  normalize_time (string s) = if is_empty s then [] else first_layout time_layouts s
  normalize_time (number t) =
      if ltb_ℤ (ten_to 15) t || ltb_ℤ t (ten_to 8)
      then []
      else if ltb_ℤ (ten_to 12) t
      then times.format_unix (times.per_thousand t)
      else times.format_unix t
  normalize_time _ = []

  -- `none` is a nil map. `format_f` is strconv.FormatFloat(v, 'f', -1, 64).
  unfoldable pub extract_display_fields : (Float64 → Text) → Option Fields → DisplayFields
  extract_display_fields format_f none = record {
    environment = [];
    error_msg = [];
    occurred_at = [];
    url = [];
  }
  extract_display_fields format_f (some m) = record {
    environment = sanitize_display_text (find_scalar_field format_f m environment_candidates);
    error_msg =
        sanitize_display_text
          (truncate_runes (find_scalar_field format_f m error_msg_candidates) 200);
    occurred_at = normalize_time (find_field m occurred_at_candidates);
    url = sanitize_display_text (truncate_runes (find_scalar_field format_f m url_candidates) 200);
  }

unfoldable pub is_special : ℕ → Bool
is_special c =
    c == b'*'
    || c == b'_'
    || c == b'['
    || c == b']'
    || c == b'('
    || c == b')'
    || c == b'~'
    || c == b'`'

unfoldable pub escape_lark_md : Text → Text
escape_lark_md [] = []
escape_lark_md (c ∷ s) =
    let rest = escape_lark_md s in if is_special c then b'\\' ∷ c ∷ rest else c ∷ rest
