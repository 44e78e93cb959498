-- ===== src/Diagnosis/Heuristics.antt =====
-- diagnosis/engine.go: the judgements on an answer that is plain text, the use of a skill, and the names of session logs.
use amp_sentinel.Prelude.{
  ℕ, Bool, true, false, ◌||◌, List, [], ◌∷◌, ◌++◌, is_some, ltb, ◌==◌, if◌then◌else◌, any, map,
  length, take,
}
use amp_sentinel.Prelude.Int.{ℤ}
use amp_sentinel.Prelude.Text.{Text, utf8}
use amp_sentinel.Prelude.Runes.{between, runes, from_runes}
use amp_sentinel.Intake.Handler.{decimal}
use amp_sentinel.Diagnosis.Types.{high, medium, low}
use amp_sentinel.Diagnosis.Parse.{strip_prefix}
pub mod Names

-- strings.Contains
unfoldable pub contains : Text → Text → Bool
contains [] sub = is_some (strip_prefix sub [])
contains (c ∷ s) sub = is_some (strip_prefix sub (c ∷ s)) || contains s sub

unfoldable pub extract_summary : Text → Text
extract_summary result =
    if ltb 200 (length (runes result))
    then from_runes (take 200 (runes result)) ++ utf8 "..."
    else result

unfoldable pub no_issue_keywords : List Text
no_issue_keywords =
    utf8 "未发现明显"
    ∷ utf8 "代码层面没有问题"
    ∷ utf8 "代码逻辑无异常"
    ∷ utf8 "未定位到代码问题"
    ∷ utf8 "no issue found"
    ∷ utf8 "no code-level issue"
    ∷ []

unfoldable pub low_keywords : List Text
low_keywords =
    utf8 "不确定"
    ∷ utf8 "low confidence"
    ∷ utf8 "需要进一步"
    ∷ utf8 "建议排查"
    ∷ utf8 "无法确认"
    ∷ utf8 "可能性较低"
    ∷ []

unfoldable pub high_keywords : List Text
high_keywords =
    utf8 "高可能性"
    ∷ utf8 "high confidence"
    ∷ utf8 "可以确定"
    ∷ utf8 "确认根因"
    ∷ utf8 "根本原因是"
    ∷ utf8 "根因为"
    ∷ utf8 "问题定位到"
    ∷ []

-- `to_lower` is strings.ToLower.
module _ (to_lower : Text → Text) where
  unfoldable pub mentions : List Text → Text → Bool
  mentions keywords result = any (λ kw. contains (to_lower result) (to_lower kw)) keywords

  unfoldable pub detect_has_issue : Text → Bool
  detect_has_issue result = if mentions no_issue_keywords result then false else true

  unfoldable pub detect_confidence : Text → Text
  detect_confidence result =
      if mentions low_keywords result
      then low
      else if mentions high_keywords result
      then high
      else medium

  unfoldable pub contains_skill : Text → Text → Bool
  contains_skill tool_name skill = contains (to_lower tool_name) (to_lower skill)

unfoldable pub is_kept : ℕ → Bool
is_kept r =
    between b'a' b'z' r
    || between b'A' b'Z' r
    || between b'0' b'9' r
    || r == b'.'
    || r == b'_'
    || r == b'-'

unfoldable pub sanitize_filename : Text → Text
sanitize_filename s = map (λ r. if is_kept r then r else b'_') (runes s)

-- The name of a session log; `seconds` is the Unix time.
unfoldable pub session_name : Text → Text → ℤ → Text
session_name id key seconds =
    sanitize_filename id
    ++ (b'_' ∷ sanitize_filename key ++ (b'_' ∷ decimal seconds ++ utf8 ".ndjson"))
