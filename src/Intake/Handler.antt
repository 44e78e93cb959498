-- ===== src/Intake/Handler.antt =====
-- intake/handler.go: the handler's configuration and state, submitEvent, and the answers of its three endpoints.
use mathlib.Core.List.{reverse}
use amp_sentinel.Prelude.{
  ℕ, zero, suc, ◌+◌, ◌-◌, ◌*◌, ◌/◌, ◌%◌, Bool, true, false, not, ◌&&◌, ◌||◌, ◌⊎◌, inl, inr, List,
  [], ◌∷◌, ◌++◌, Option, none, some, ltb, leb, ◌==◌, if◌then◌else◌, length,
}
use amp_sentinel.Prelude.Int.{ℤ, pos, negsuc, ltb_ℤ}
use amp_sentinel.Prelude.Text.{Text, utf8, text_eq, is_empty}
use amp_sentinel.Intake.Event.{RawEvent, warning, is_valid_severity, severity_priority}
use amp_sentinel.Intake.Clock.{minute}
use amp_sentinel.Intake.Dedup.{DedupTable, check_dedup_with_window, clean_dedup}
use amp_sentinel.Intake.RateLimit.{Shards, check_rate_limit, clean_rate}
use amp_sentinel.Intake.Fingerprint.{DedupConfig, Codec, compute_fingerprint}
use amp_sentinel.Intake.Display.{extract_title}
pub mod Submit
pub mod Decimal

-- HandlerConfig, and the configuration that NewHandler keeps of it.
pub record HandlerConfig : Type 0 where
  pub auth_token : Text
  pub dedup_window : ℤ
  pub dedup_fields : List Text
  pub rate_limit : ℤ
  pub min_severity : Text
  pub max_payload_size : ℤ

abbrev pub nonzero_or : ℤ → ℤ → ℤ
nonzero_or (pos zero) d = d
nonzero_or (pos (suc n)) d = pos (suc n)
nonzero_or (negsuc n) d = negsuc n

unfoldable pub default_fields : List Text
default_fields = utf8 "error_msg" ∷ utf8 "error" ∷ utf8 "message" ∷ utf8 "msg" ∷ []

unfoldable pub fields_or : List Text → List Text → List Text
fields_or [] d = d
fields_or (f ∷ fs) d = f ∷ fs

-- NewHandler
unfoldable pub with_defaults : HandlerConfig → HandlerConfig
with_defaults cfg = record cfg {
  dedup_window = nonzero_or cfg.dedup_window (pos (10 * minute));
  rate_limit = nonzero_or cfg.rate_limit (pos 10);
  min_severity = if is_empty cfg.min_severity then warning else cfg.min_severity;
  max_payload_size = nonzero_or cfg.max_payload_size (pos 65536);
  dedup_fields = fields_or cfg.dedup_fields default_fields;
}

-- The state that requests share.
pub record State : Type 0 where
  pub dedup : DedupTable
  pub shards : Shards

-- One round of cleanupLoop.
unfoldable pub clean_up : State → ℕ → State
clean_up s now = record { dedup = clean_dedup s.dedup now; shards = clean_rate s.shards now }

-- What one request finds around it: the libraries and callbacks, a fresh id, and the clock at each place that reads
-- it. `between` is what other goroutines do to the fingerprints while this one decides.
pub record World : Type 0 where
  pub codec : Codec
  pub dedup_config : Option (Text → Option DedupConfig)
  pub validate_project : Option (Text → Bool)
  pub on_event : RawEvent → Text ⊎ Text
  pub fresh_id : Text
  pub received_at : ℕ
  pub dedup_now : ℕ
  pub dedup_later : ℕ
  pub rate_now : ℕ
  pub between : DedupTable → DedupTable

unfoldable pub fill_defaults : World → RawEvent → RawEvent
fill_defaults w e = record e {
  id = if is_empty e.id then utf8 "evt-" ++ w.fresh_id else e.id;
  severity = if is_empty e.severity then warning else e.severity;
  source = if is_empty e.source then utf8 "custom" else e.source;
  received_at = if e.received_at == 0 then w.received_at else e.received_at;
}

unfoldable pub project_dedup : World → Text → Option DedupConfig
project_dedup w key = elim w.dedup_config [ none ↦ none | some f ↦ f key ]

-- The project's own window where it is positive.
unfoldable pub window_or : Option DedupConfig → ℤ → ℤ
window_or none d = d
window_or (some c) d = if ltb_ℤ (pos 0) c.window then c.window else d

unfoldable pub dedup_key : HandlerConfig → World → RawEvent → Text
dedup_key cfg w e =
    compute_fingerprint w.codec e.project_key e.payload (project_dedup w e.project_key)
      cfg.dedup_fields

unfoldable pub dedup_window_of : HandlerConfig → World → RawEvent → ℤ
dedup_window_of cfg w e = window_or (project_dedup w e.project_key) cfg.dedup_window

unfoldable pub deduplicated : Text
deduplicated = utf8 "deduplicated: duplicate event within dedup window"

-- The decimal digits of a number, on fuel above the number of its digits.
unfoldable pub decimal_loop : ℕ → ℕ → Text
decimal_loop zero n = []
decimal_loop (suc k) n =
    let rest = decimal_loop k (n / 10) in
    let last = (b'0' + n % 10) ∷ [] in if ltb n 10 then last else rest ++ last

unfoldable pub decimal : ℤ → Text
decimal (pos n) = decimal_loop (n + 1) n
decimal (negsuc n) = b'-' ∷ decimal_loop (n + 2) (suc n)

unfoldable pub rate_limited : Text → ℤ → Text
rate_limited key limit =
    utf8 "rate_limited: project "
    ++ key
    ++ utf8 " exceeded "
    ++ decimal limit
    ++ utf8 " diagnoses per hour"

-- submitEvent: the id of the task, or the error's text.
unfoldable pub submit_event : HandlerConfig → World → State → RawEvent → State × (Text ⊎ Text)
submit_event cfg w s e =
    let (dedup, first) =
      check_dedup_with_window s.dedup (dedup_key cfg w e) (dedup_window_of cfg w e) w.dedup_now
        w.dedup_later w.between in
    let (shards, within) = check_rate_limit s.shards cfg.rate_limit e.project_key w.rate_now in
    if not first
    then (record s { dedup = dedup }, inl deduplicated)
    else if not within
    then (
      record { dedup = dedup; shards = shards },
      inl (rate_limited e.project_key cfg.rate_limit),
    )
    else (record { dedup = dedup; shards = shards }, w.on_event e)

-- The answers: an error in plain text, or an event that is filtered, a duplicate, refused or queued.
pub data Reply : Type 0 where
  problem : ℕ → Text → Reply
  filtered : Text → Text → Reply
  duplicate : Text → Text → Reply
  refused : ℕ → Text → Text → Reply
  queued : Text → Text → Reply

-- The HTTP status of an answer.
unfoldable pub status_code : Reply → ℕ
status_code (problem c t) = c
status_code (filtered i t) = 200
status_code (duplicate i t) = 200
status_code (refused c i t) = c
status_code (queued i t) = 202

unfoldable pub starts_with : Text → Text → Bool
starts_with [] s = true
starts_with (m ∷ mark) [] = false
starts_with (m ∷ mark) (c ∷ s) = m == c && starts_with mark s

-- strings.Contains
unfoldable pub contains : Text → Text → Bool
contains [] mark = starts_with mark []
contains (c ∷ s) mark = starts_with mark (c ∷ s) || contains s mark

-- The answer to what submitEvent returns, from the words in the error's text.
unfoldable pub reply_of : Text → Text ⊎ Text → Reply
reply_of id (inr task_id) = queued id task_id
reply_of id (inl e) =
    if contains e (utf8 "deduplicated")
    then duplicate id e
    else refused (if contains e (utf8 "rate_limited") then 429 else 503) id e

unfoldable pub too_large : HandlerConfig → Text → Bool
too_large cfg payload =
    ltb_ℤ (pos 0) cfg.max_payload_size && ltb_ℤ cfg.max_payload_size (pos (length payload))

unfoldable pub is_unknown_project : World → Text → Bool
is_unknown_project w key = elim w.validate_project [ none ↦ false | some f ↦ not (f key) ]

unfoldable pub meets_min_severity : HandlerConfig → Text → Bool
meets_min_severity cfg severity =
    leb (severity_priority cfg.min_severity) (severity_priority severity)

unfoldable pub with_title : World → RawEvent → RawEvent
with_title w e = record e {
  title = if is_empty e.title then extract_title w.codec.unmarshal e.payload else e.title;
}

-- The refusals before submitEvent, in their order; nothing when the event goes on.
unfoldable pub refusal : HandlerConfig → World → RawEvent → Option Reply
refusal cfg w e =
    if is_empty e.project_key
    then some (problem 400 (utf8 "project_key is required"))
    else if not (is_valid_severity e.severity)
    then some (
        problem 400
          (utf8 "invalid severity: " ++ e.severity ++ utf8 " (must be critical, warning, or info)"))
    else if too_large cfg e.payload
    then some (
        problem 413 (
          utf8 "payload too large: "
          ++ decimal (pos (length e.payload))
          ++ utf8 " bytes (max "
          ++ decimal cfg.max_payload_size
          ++ utf8 ")"))
    else if is_unknown_project w e.project_key
    then some (problem 400 (utf8 "unknown project: " ++ e.project_key))
    else if not (meets_min_severity cfg e.severity)
    then some (
        filtered e.id
          (utf8 "severity " ++ e.severity ++ utf8 " is below minimum " ++ cfg.min_severity))
    else none

unfoldable pub submit_unless :
    Option Reply → HandlerConfig → World → State → RawEvent → State × Reply
submit_unless (some r) cfg w s e = (s, r)
submit_unless none cfg w s e =
    let (t, result) = submit_event cfg w s (with_title w e) in (t, reply_of e.id result)

-- processEvent
unfoldable pub process_event : HandlerConfig → World → State → RawEvent → State × Reply
process_event cfg w s event =
    let e = fill_defaults w event in submit_unless (refusal cfg w e) cfg w s e

-- processLegacyEvent: the same steps; its answers call the id `incident_id` where processEvent's call it `event_id`,
-- and a Reply has no name for it.
unfoldable pub process_legacy_event : HandlerConfig → World → State → RawEvent → State × Reply
process_legacy_event cfg w s event =
    let e = fill_defaults w event in submit_unless (refusal cfg w e) cfg w s e

-- checkAuth: no token configured, or "Bearer " and the token.
unfoldable pub is_authorized : HandlerConfig → Text → Bool
is_authorized cfg header =
    is_empty cfg.auth_token || text_eq header (utf8 "Bearer " ++ cfg.auth_token)
