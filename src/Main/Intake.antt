-- ===== src/Main/Intake.antt =====
-- main.go, the callbacks of the intake handler, and config.go, ParseDuration.
use amp_sentinel.Prelude.{List, [], ◌∷◌, Option, none, some, if◌then◌else◌}
use amp_sentinel.Prelude.Int.{ℤ, pos}
use amp_sentinel.Prelude.Text.{Text, utf8, is_empty}
use amp_sentinel.Prelude.Runes.{trim_space}
use amp_sentinel.Intake.Event.{RawEvent}
use amp_sentinel.Intake.Fingerprint.{DedupConfig}
use amp_sentinel.Project.Registry.{Project, Registry, lookup_project}
use amp_sentinel.Store.Records.{Event}
use amp_sentinel.Store.JsonStore.{JsonData, create_event}

unfoldable pub or_duration : Option ℤ → ℤ → ℤ
or_duration none fallback = fallback
or_duration (some d) fallback = d

-- ParseDuration; `parse` is time.ParseDuration.
unfoldable pub parse_duration : (Text → Option ℤ) → Text → ℤ → ℤ
parse_duration parse s fallback =
    let t = trim_space s in if is_empty t then fallback else or_duration (parse t) fallback

unfoldable pub dedup_of_project : (Text → Option ℤ) → Option Project → Option DedupConfig
dedup_of_project parse none = none
dedup_of_project parse (some p) = dedup_of_fields p.dedup.fields p.dedup.window
  where
    dedup_of_fields : List Text → Text → Option DedupConfig
    dedup_of_fields [] window = none
    dedup_of_fields (f ∷ fs) window = some (record {
      fields = f ∷ fs;
      window = if is_empty window then pos 0 else parse_duration parse window (pos 0);
    })

-- The function `dedupConfig` of main.
unfoldable pub dedup_config : (Text → Option ℤ) → Registry → Text → Option DedupConfig
dedup_config parse registry key = dedup_of_project parse (lookup_project registry key)

unfoldable pub pending : Text
unfolding utf8
pending = utf8 "pending"

unfoldable pub event_to_store : RawEvent → Event
event_to_store e = record {
  id = e.id;
  project_key = e.project_key;
  payload = e.payload;
  source = e.source;
  severity = e.severity;
  title = e.title;
  status = pending;
  received_at = e.received_at;
}

-- The callback of an accepted event: the event is stored, whether or not that succeeds it is submitted.
unfoldable pub receive : (RawEvent → Option Text) → RawEvent → JsonData → JsonData × Option Text
receive submit event d = ((create_event d (event_to_store event)).0, submit event)
