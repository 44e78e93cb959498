-- ===== src/Notify/Card.antt =====
-- notify/feishu.go, buildCard: the card that shows a report.
use mathlib.Core.List.{reverse}
use amp_sentinel.Prelude.{
  ℕ, Bool, not, ◌&&◌, List, [], ◌∷◌, ◌++◌, Option, any, length, take, ltb, ◌==◌, if◌then◌else◌,
}
use amp_sentinel.Prelude.Int.{pos}
use amp_sentinel.Prelude.Text.{Text, utf8, text_eq, is_empty}
use amp_sentinel.Prelude.Runes.{runes, from_runes}
use amp_sentinel.Intake.Event.{RawEvent}
use amp_sentinel.Intake.Json.{Fields}
use amp_sentinel.Intake.Display.{sanitize_display_text, truncate_runes}
use amp_sentinel.Intake.Details.{TimeText, DisplayFields, extract_display_fields, escape_lark_md}
use amp_sentinel.Intake.Handler.{decimal}
use amp_sentinel.Project.Registry.{Project}
use amp_sentinel.Diagnosis.Types.{Float64, high, medium, low}
use amp_sentinel.Diagnosis.Report.{Report}
use amp_sentinel.Diagnosis.Reuse.{flag_reused_stale_commit}

pub data Element : Type 0 where
  lark_md : Text → Element
  hr : Element
  button : Text → Text → Element

pub record Card : Type 0 where
  pub title : Text
  pub template : Text
  pub elements : List Element

-- strings.Join
unfoldable pub join_texts : Text → List Text → Text
join_texts sep [] = []
join_texts sep (s ∷ []) = s
join_texts sep (s ∷ t ∷ ts) = s ++ sep ++ join_texts sep (t ∷ ts)

-- strings.TrimRight(s, "/")
unfoldable pub drop_slashes : Text → Text
drop_slashes [] = []
drop_slashes (c ∷ s) = let rest = drop_slashes s in if c == b'/' then rest else c ∷ s

unfoldable pub trim_slashes : Text → Text
trim_slashes s = reverse (drop_slashes (reverse s))

-- What the source appends under a condition.
abbrev pub only_if {ℓ} : {A : Type ℓ} → Bool → List A → List A
only_if b xs = if b then xs else []

-- The template with the prefix of the title.
unfoldable pub look : Report → Text × Text
look r =
    if r.tainted
    then (utf8 "purple", utf8 "🟣 诊断异常（源码被意外修改）")
    else if r.has_issue && text_eq r.confidence high
    then (utf8 "red", utf8 "🔴 故障诊断报告")
    else if r.has_issue
    then (utf8 "orange", utf8 "🟠 故障诊断报告（需进一步确认）")
    else (utf8 "yellow", utf8 "🟡 故障诊断报告（未定位到代码问题）")

unfoldable pub fallback_title : RawEvent → Text
fallback_title event = utf8 "来自 " ++ event.source ++ utf8 " 的事件"

unfoldable pub display_title : RawEvent → DisplayFields → Text
display_title event df =
    if not (is_empty event.title)
    then event.title
    else if not (is_empty df.error_msg)
    then df.error_msg
    else fallback_title event

unfoldable pub is_blank : DisplayFields → Bool
is_blank df =
    is_empty df.environment && is_empty df.error_msg && is_empty df.occurred_at && is_empty df.url

unfoldable pub preview_lines : RawEvent → List Text
preview_lines event =
    let preview = sanitize_display_text (truncate_runes event.payload 200) in
    only_if (not (is_empty preview)) ((utf8 "**原始数据**: " ++ escape_lark_md preview) ∷ [])

-- `to_upper` is strings.ToUpper.
unfoldable pub event_lines : (Text → Text) → RawEvent → DisplayFields → List Text
event_lines to_upper event df =
    (utf8 "**标题**: " ++ escape_lark_md (display_title event df))
    ∷ (utf8 "**严重程度**: " ++ to_upper event.severity)
    ∷ (utf8 "**来源**: " ++ escape_lark_md event.source)
    ∷ (only_if (not (is_empty df.environment))
          ((utf8 "**环境**: " ++ escape_lark_md df.environment) ∷ [])
        ++ only_if (not (is_empty df.occurred_at)) ((utf8 "**发生时间**: " ++ df.occurred_at) ∷ [])
        ++ only_if (not (is_empty df.url)) ((utf8 "**URL/路径**: " ++ escape_lark_md df.url) ∷ [])
        ++ only_if
            (text_eq (display_title event df) (fallback_title event)
              && is_blank df
              && not (is_empty event.payload))
            (preview_lines event))

unfoldable pub summary_of : Report → Text
summary_of r =
    let s = if is_empty r.summary then r.raw_result else r.summary in
    if ltb 200 (length (runes s)) then from_runes (take 200 (runes s)) ++ utf8 "..." else s

unfoldable pub result_icon : Report → Text
result_icon r = if r.has_issue then utf8 "🔴 发现问题" else utf8 "🟢 未发现代码问题"

unfoldable pub confidence_text : Text → Text
confidence_text label =
    if text_eq label high
    then utf8 "高"
    else if text_eq label medium
    then utf8 "中"
    else if text_eq label low
    then utf8 "低"
    else label

-- The sign with U+FE0F, its variation selector.
unfoldable pub warning_sign : Text
warning_sign = utf8 "⚠" ++ 0xEF ∷ 0xB8 ∷ 0x8F ∷ []

unfoldable pub commit_note : List Text → Text
commit_note flags =
    if any (λ flag. text_eq flag flag_reused_stale_commit) flags
    then warning_sign ++ utf8 " commit 已变更"
    else utf8 "commit 一致"

-- `seconds_text` is a number of milliseconds in seconds, by "%.1fs".
unfoldable pub run_text : (ℕ → Text) → Report → Text
run_text seconds_text r =
    if is_empty r.reused_from_id
    then utf8 "\n**耗时**: "
      ++ seconds_text r.duration_ms
      ++ utf8 " | **对话轮次**: "
      ++ decimal (pos r.num_turns)
    else utf8 "\n**执行方式**: 复用历史诊断（未重新执行 AI 分析）"

unfoldable pub diagnosis_content : (ℕ → Text) → Report → Text
diagnosis_content seconds_text r =
    utf8 "**诊断结论**: "
    ++ result_icon r
    ++ utf8 "\n**置信度**: "
    ++ confidence_text r.confidence
    ++ utf8 "\n**摘要**: "
    ++ escape_lark_md (summary_of r)
    ++ run_text seconds_text r
    ++ only_if (ltb 0 r.quality_score.normalized)
        (utf8 "\n**质量评分**: " ++ decimal (pos r.quality_score.normalized) ++ utf8 "/100")
    ++ only_if (ltb 0 (length r.quality_score.flags))
        (utf8 "\n**质量标记**: " ++ join_texts (utf8 ", ") r.quality_score.flags)
    ++ only_if (not (is_empty r.reused_from_id)) (
        utf8 "\n**复用自**: "
        ++ escape_lark_md r.reused_from_id
        ++ utf8 " ("
        ++ commit_note r.quality_score.flags
        ++ utf8 ")")

unfoldable pub tainted_warning : Element
tainted_warning = lark_md (warning_sign ++ utf8 " **安全告警**: 诊断过程中检测到源码被意外修改，已自动回滚。此诊断结果可能不可靠。")

-- What the card takes from the packages: `unmarshal` is json.Unmarshal of the payload into a map.
pub record CardText : Type 0 where
  pub times : TimeText
  pub format_f : Float64 → Text
  pub unmarshal : Text → Option Fields
  pub to_upper : Text → Text
  pub seconds_text : ℕ → Text

unfoldable pub build_card : CardText → Text → Project → RawEvent → Report → Card
build_card texts dashboard_url proj event r =
    let df = extract_display_fields texts.times texts.format_f (texts.unmarshal event.payload) in
    record {
      title = (look r).1 ++ utf8 " — " ++ proj.name;
      template = (look r).0;
      elements =
          lark_md (join_texts (utf8 "\n") (event_lines texts.to_upper event df))
          ∷ hr
          ∷ lark_md (diagnosis_content texts.seconds_text r)
          ∷ (only_if r.tainted (hr ∷ tainted_warning ∷ [])
              ++ only_if (ltb 0 (length proj.owners))
                  (lark_md (utf8 "**👤 负责人**: " ++ join_texts (utf8 ", ") proj.owners) ∷ [])
              ++ only_if (not (is_empty dashboard_url)) (
                  hr
                  ∷ button (utf8 "📋 查看完整诊断报告") (trim_slashes dashboard_url ++ utf8 "#tasks")
                  ∷ []));
    }
