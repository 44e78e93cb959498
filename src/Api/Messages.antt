-- ===== src/Api/Messages.antt =====
-- api/server.go: requests, what is answered, and the helpers of the handlers.
use mathlib.Core.List.{reverse}
use amp_sentinel.Prelude.{
  ℕ, Bool, true, false, not, ◌&&◌, ◌||◌, ◌==◌, List, [], ◌∷◌, Option, none, some, is_some,
  if◌then◌else◌,
}
use amp_sentinel.Prelude.Int.{ℤ, pos, ltb_ℤ}
use amp_sentinel.Prelude.Text.{Text, utf8, text_eq, is_empty}
use amp_sentinel.Intake.Event.{RawEvent}
use amp_sentinel.Diagnosis.Paths.{split}
use amp_sentinel.Diagnosis.Parse.{strip_prefix}
use amp_sentinel.Project.Registry.{Project}
use amp_sentinel.Scheduler.Work.{Stats}
use amp_sentinel.Store.Records.{Event, DiagnosisTask, DiagnosisReport}
use amp_sentinel.Store.JsonStore.{UsageSummary}

-- `query` is `r.URL.Query().Get`.
pub record Request : Type 0 where
  pub method : Text
  pub path : Text
  pub authorization : Text
  pub query : Text → Text

-- No element of a path is empty, `.` or `..`, but for an empty one at the end.
unfoldable pub elements_clean : List Text → Bool
elements_clean [] = true
elements_clean (e ∷ []) = is_empty e || not (text_eq e (utf8 ".") || text_eq e (utf8 ".."))
elements_clean (e ∷ f ∷ es) =
    not (is_empty e || text_eq e (utf8 ".") || text_eq e (utf8 "..")) && elements_clean (f ∷ es)

-- `cleanPath(path) == path` of net/http, whose ServeMux moves the other paths.
unfoldable pub is_clean_path : Text → Bool
is_clean_path [] = false
is_clean_path (c ∷ s) = c == b'/' && elements_clean (split s)

-- What the list of projects shows of one.
pub record ProjectView : Type 0 where
  pub key : Text
  pub name : Text
  pub branch : Text
  pub language : Text
  pub skills : List Text
  pub owners : List Text
  pub has_webhook : Bool

pub data Body : Type 0 where
  error_message : Text → Body
  status_ok : Body
  stats : UsageSummary → Stats → Body
  projects : List ProjectView → Body
  events : List Event → Body
  event : Event → Body
  tasks : List DiagnosisTask → Body
  task : DiagnosisTask → Body
  report : DiagnosisReport → Body
  retried : Text → Text → Body
  dashboard : Body
  moved : Body

pub record Response : Type 0 where
  pub status : ℕ
  pub body : Body

abbrev pub write_json : ℕ → Body → Response
write_json s b = record { status = s; body = b }

abbrev pub write_error : ℕ → Text → Response
write_error s msg = write_json s (error_message msg)

abbrev pub is_method : Text → Request → Bool
is_method m r = text_eq r.method m

abbrev pub not_allowed : Response
not_allowed = write_error 405 (utf8 "method not allowed")

-- parseIntParam; `atoi` is strconv.Atoi.
unfoldable pub or_int : Option ℤ → ℤ → ℤ
or_int none default = default
or_int (some v) default = if ltb_ℤ v (pos 0) then default else v

unfoldable pub parse_int_param : (Text → Option ℤ) → Text → ℤ → ℤ
parse_int_param atoi s default = if is_empty s then default else or_int (atoi s) default

unfoldable pub coalesce : List Text → Text
coalesce [] = []
coalesce (v ∷ vs) = if is_empty v then coalesce vs else v

unfoldable pub view : Project → ProjectView
view p = record {
  key = p.key;
  name = p.name;
  branch = p.branch;
  language = p.language;
  skills = p.skills;
  owners = p.owners;
  has_webhook = not (is_empty p.feishu_webhook);
}

-- strings.TrimPrefix, and strings.HasSuffix with TrimSuffix.
unfoldable pub trim_prefix : Text → Text → Text
trim_prefix mark s = or_whole (strip_prefix mark s)
  where
    or_whole : Option Text → Text
    or_whole none = s
    or_whole (some rest) = rest

unfoldable pub strip_suffix : Text → Text → Option Text
strip_suffix mark s = elim (strip_prefix (reverse mark) (reverse s)) [
  | none ↦ none
  | some rest ↦ some (reverse rest)
]

unfoldable pub has_prefix : Text → Text → Bool
has_prefix mark s = is_some (strip_prefix mark s)

unfoldable pub is_active : DiagnosisTask → Bool
is_active t =
    text_eq t.status (utf8 "pending")
    || text_eq t.status (utf8 "queued")
    || text_eq t.status (utf8 "running")

unfoldable pub first_active : List DiagnosisTask → Option DiagnosisTask
first_active [] = none
first_active (t ∷ ts) = let rest = first_active ts in if is_active t then some t else rest

unfoldable pub event_from_store : Event → RawEvent
event_from_store e = record {
  id = e.id;
  project_key = e.project_key;
  payload = e.payload;
  source = e.source;
  severity = e.severity;
  title = e.title;
  received_at = e.received_at;
}
