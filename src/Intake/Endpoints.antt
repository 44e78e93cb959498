-- ===== src/Intake/Endpoints.antt =====
-- intake/handler.go: ServeHTTP, ServeBatch and ServeIncidentCompat, over a request that net/http has taken apart.
use amp_sentinel.Prelude.{
  ℕ, zero, suc, ◌+◌, Bool, true, false, not, ◌&&◌, ◌||◌, ◌⊎◌, inl, inr, List, [], ◌∷◌, ◌++◌, Option,
  none, some, if◌then◌else◌, length,
}
use amp_sentinel.Prelude.Int.{ℤ, pos}
use amp_sentinel.Prelude.Text.{Text, utf8, text_eq, is_empty}
use amp_sentinel.Intake.Event.{RawEvent, is_valid_severity}
use amp_sentinel.Intake.Handler.{
  HandlerConfig, State, World, fill_defaults, submit_event, Reply, problem, filtered, refused,
  queued, decimal, too_large, is_unknown_project, meets_min_severity, with_title, process_event,
  process_legacy_event, is_authorized,
}
pub mod Batch

-- What json.Unmarshal reads of a body in the standard mode.
pub record Envelope : Type 0 where
  pub project_key : Text
  pub payload : Text
  pub source : Text
  pub severity : Text
  pub title : Text

-- `body` is nothing if it is over its limit; `decoded` is json.Unmarshal of the body, or its error; `lines` are those
-- that bufio.Scanner reads, up to `read_error`.
pub record Request : Type 0 where
  pub method : Text
  pub authorization : Text
  pub project : Text
  pub severity : Text
  pub body : Option Text
  pub decoded : Text ⊎ Envelope
  pub lines : List Text
  pub read_error : Option Text

unfoldable pub event_of : Text → Text → Text → Text → Text → RawEvent
event_of project severity payload source title = record {
  id = [];
  project_key = project;
  payload = payload;
  source = source;
  severity = severity;
  title = title;
  received_at = 0;
}

-- The answers of the three endpoints to a request that is no POST, or not authorized.
unfoldable pub turned_away : HandlerConfig → Request → Option Reply
turned_away cfg r =
    if not (text_eq r.method (utf8 "POST"))
    then some (problem 405 (utf8 "method not allowed"))
    else if not (is_authorized cfg r.authorization)
    then some (problem 401 (utf8 "unauthorized"))
    else none

-- The event in a body, or the answer to one that cannot be read.
unfoldable pub standard_event : Text ⊎ Envelope → Reply ⊎ RawEvent
standard_event (inl e) = inl (problem 400 (utf8 "invalid json: " ++ e))
standard_event (inr v) =
    if is_empty v.payload
    then inl (problem 400 (utf8 "payload is required"))
    else inr (event_of v.project_key v.severity v.payload v.source v.title)

unfoldable pub posted_event : Request → Option Text → Reply ⊎ RawEvent
posted_event r none = inl (problem 413 (utf8 "request body too large"))
posted_event r (some body) =
    if is_empty r.project
    then standard_event r.decoded
    else inr (event_of r.project r.severity body (utf8 "custom") [])

unfoldable pub legacy_event : Text ⊎ Envelope → Option Text → Reply ⊎ RawEvent
legacy_event d none = inl (problem 413 (utf8 "request body too large"))
legacy_event (inl e) (some body) = inl (problem 400 (utf8 "invalid json: " ++ e))
legacy_event (inr v) (some body) =
    inr (event_of v.project_key v.severity body (utf8 "legacy") v.title)

unfoldable pub answer :
    Option Reply → Reply ⊎ RawEvent → (RawEvent → State × Reply) → State → State × Reply
answer (some r) e process s = (s, r)
answer none (inl r) process s = (s, r)
answer none (inr e) process s = process e

unfoldable pub serve_http : HandlerConfig → World → State → Request → State × Reply
serve_http cfg w s r = answer (turned_away cfg r) (posted_event r r.body) (process_event cfg w s) s

unfoldable pub serve_incident_compat : HandlerConfig → World → State → Request → State × Reply
serve_incident_compat cfg w s r =
    answer (turned_away cfg r) (legacy_event r.decoded r.body) (process_legacy_event cfg w s) s

-- What ServeBatch reports of one line.
pub data LineStatus : Type 0 where
  line_error : Text → LineStatus
  line_filtered : Text → LineStatus
  line_queued : Text → LineStatus

pub record LineResult : Type 0 where
  pub line : ℕ
  pub event_id : Option Text
  pub status : LineStatus

unfoldable pub line_result : Text ⊎ Text → LineStatus
line_result (inl e) = line_error e
line_result (inr id) = line_queued id

-- One line that holds a JSON value of an admissible size; `valid` is json.Valid.
unfoldable pub batch_event : HandlerConfig → World → State → RawEvent → State × LineStatus
batch_event cfg w s e =
    let titled = with_title w e in
    let (t, result) = submit_event cfg w s titled in
    if not (is_valid_severity e.severity)
    then (s, line_error (utf8 "invalid severity: " ++ e.severity))
    else if not (meets_min_severity cfg e.severity)
    then (
      s,
      line_filtered
          (utf8 "severity " ++ e.severity ++ utf8 " is below minimum " ++ cfg.min_severity),
    )
    else if is_unknown_project w e.project_key
    then (s, line_error (utf8 "unknown project: " ++ e.project_key))
    else (t, line_result result)

unfoldable pub batch_line :
    (Text → Bool) → HandlerConfig → World → Request → State → ℕ → Text → State × List LineResult
batch_line valid cfg w r s n line =
    let e = fill_defaults w (event_of r.project r.severity line (utf8 "batch") []) in
    let (t, status) = batch_event cfg w s e in
    let too_long =
      utf8 "payload too large: "
      ++ decimal (pos (length line))
      ++ utf8 " bytes (max "
      ++ decimal cfg.max_payload_size
      ++ utf8 ")" in
    if is_empty line
    then (s, [])
    else if not (valid line)
    then (s, record { line = n; event_id = none; status = line_error (utf8 "invalid json") } ∷ [])
    else if too_large cfg line
    then (s, record { line = n; event_id = none; status = line_error too_long } ∷ [])
    else (t, record { line = n; event_id = some e.id; status = status } ∷ [])

-- The lines from number `n` on; each finds a world of its own.
unfoldable pub batch_lines :
    (Text → Bool)
    → HandlerConfig
    → (ℕ → World)
    → Request
    → State
    → ℕ
    → List Text
    → State × List LineResult
batch_lines valid cfg w r s n [] = (s, [])
batch_lines valid cfg w r s n (line ∷ lines) =
    let (t, first) = batch_line valid cfg (w n) r s n line in
    let (u, rest) = batch_lines valid cfg w r t (n + 1) lines in (u, first ++ rest)

pub record BatchReply : Type 0 where
  pub total : ℕ
  pub accepted : ℕ
  pub results : List LineResult

unfoldable pub is_queued : LineStatus → Bool
is_queued (line_queued id) = true
is_queued _ = false

-- The counter `accepted`.
unfoldable pub count_queued : List LineResult → ℕ
count_queued [] = 0
count_queued (r ∷ rs) = let rest = count_queued rs in if is_queued r.status then rest + 1 else rest

unfoldable pub read_failure : ℕ → Option Text → List LineResult
read_failure n none = []
read_failure n (some e) =
    record { line = n + 1; event_id = none; status = line_error (utf8 "read error: " ++ e) } ∷ []

unfoldable pub batch_reply : ℕ → List LineResult → Option Text → BatchReply
batch_reply total results e = record {
  total = total;
  accepted = count_queued results;
  results = results ++ read_failure total e;
}

unfoldable pub serve_batch :
    (Text → Bool) → HandlerConfig → (ℕ → World) → State → Request → State × (Reply ⊎ BatchReply)
serve_batch valid cfg w s r =
    let (t, results) = batch_lines valid cfg w r s 1 r.lines in
    elim (turned_away cfg r) [
      | some reply ↦ (s, inl reply)
      | none ↦
          if is_empty r.project
          then (s, inl (problem 400 (utf8 "project query parameter is required for batch")))
          else (t, inr (batch_reply (length r.lines) results r.read_error))
    ]
