-- ===== src/Intake/Event.antt =====
-- intake/types.go: the event, its severity, and its priority.
use amp_sentinel.Prelude.{ℕ, Bool, [], ◌∷◌, if◌then◌else◌}
use amp_sentinel.Prelude.Text.{Text, utf8, text_eq, one_of}

-- A time is nanoseconds since an epoch; the zero time is 0.
pub record RawEvent : Type 0 where
  pub id : Text
  pub project_key : Text
  pub payload : Text
  pub source : Text
  pub severity : Text
  pub title : Text
  pub received_at : ℕ

unfoldable pub critical : Text
unfolding utf8
critical = utf8 "critical"

unfoldable pub warning : Text
unfolding utf8
warning = utf8 "warning"

unfoldable pub info : Text
unfolding utf8
info = utf8 "info"

unfoldable pub is_valid_severity : Text → Bool
is_valid_severity = one_of (critical ∷ warning ∷ info ∷ [])

unfoldable pub severity_priority : Text → ℕ
severity_priority s =
    if text_eq s critical
    then 100
    else if text_eq s warning
    then 50
    else if text_eq s info
    then 10
    else 50
