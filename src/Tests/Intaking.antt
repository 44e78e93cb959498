-- ===== src/Tests/Intaking.antt =====
-- Examples for the intake: one project whose events repeat, a rate limit of two, and a batch of three lines.
use amp_sentinel.Prelude.{
  ℕ, ◌*◌, ◌≤◌, ◌≡◌, ◌≢◌, ◌⊎◌, ◌↔◌, inl, inr, refl, true, false, List, [], ◌∷◌, none, length, arith,
}
use amp_sentinel.Prelude.Int.{ℤ, pos}
use amp_sentinel.Prelude.Text.{Text}
use amp_sentinel.Intake.Event.{RawEvent, warning}
use amp_sentinel.Intake.Clock.{has_passed}
use amp_sentinel.Intake.Dedup.{DedupEntry, DedupTable, check_dedup_with_window, decide}
use amp_sentinel.Intake.Dedup.Spacing.{
  Action, checks, cleans, InOrder, passed, Spaced, passed-Spaced,
}
use amp_sentinel.Intake.RateLimit.{Shards}
use amp_sentinel.Intake.RateLimit.Bound.{
  RateAction, limits, expires, InHour, admitted, allowed, admitted-le,
}
use amp_sentinel.Intake.Fingerprint.{
  Codec, compute_fingerprint, event_hash, configured, fast_or_slow, slow_fingerprint,
  fast_fingerprint, hash_bytes,
}
use amp_sentinel.Intake.Fingerprint.Projects.{compute_fingerprint-project}
use amp_sentinel.Intake.Handler.{
  HandlerConfig, State, World, dedup_key, dedup_window_of, deduplicated, submit_event, queued,
  process_event, fill_defaults, with_title, window_or, project_dedup,
}
use amp_sentinel.Intake.Handler.Submit.{Admitted, submit_event_again, process_event-queued_iff}
use amp_sentinel.Intake.Endpoints.{Request}

abbrev ten : Text → ℤ
ten k = pos 10

-- Seen at 1, again at 5 and at 12, with a clean-up between.
abbrev repeats : List Action
repeats =
    checks (b'k' ∷ []) 1 2 ∷ checks (b'k' ∷ []) 5 5 ∷ cleans 11 ∷ checks (b'k' ∷ []) 12 12 ∷ []

repeats-InOrder : InOrder 0 repeats
unfolding InOrder
repeats-InOrder = (
  omega arith,
  omega arith,
  (omega arith, omega arith, (omega arith, (omega arith, omega arith, tt))),
)

passed-Spaced_example : Spaced (pos 10) none (passed ten (b'k' ∷ []) (λ j. none) repeats)
passed-Spaced_example = passed-Spaced ten (b'k' ∷ []) 0 repeats repeats-InOrder

abbrev entry_at : ℕ → DedupEntry
entry_at n = record { at = n; window = pos 10 }

abbrev nothing_seen : DedupTable
nothing_seen k = none

differing : ((entry_at 20).at ≢ (entry_at 1).at) ⊎ ((entry_at 20).window ≢ (entry_at 1).window)
differing = inl (λ e. absurd (omega arith))

abbrev no_shards : Shards
no_shards i k = none

abbrev burst : List RateAction
burst = limits (b'p' ∷ []) 7 ∷ limits (b'p' ∷ []) 8 ∷ expires 9 ∷ limits (b'p' ∷ []) 10 ∷ []

burst-InHour : InHour 5 burst
unfolding InHour
burst-InHour = (
  omega arith,
  omega arith,
  (omega arith, omega arith, (omega arith, omega arith, (omega arith, omega arith, tt))),
)

admitted-le_example : admitted (pos 2) (b'p' ∷ []) no_shards burst ≤ 2 * allowed (pos 2)
admitted-le_example = admitted-le (pos 2) (b'p' ∷ []) 5 no_shards burst burst-InHour

-- A library whose sums are all the same 32 bytes, and which reads no JSON.
abbrev zeros : Text → Text
zeros b =
    0 ∷ 0 ∷ 0 ∷ 0 ∷ 0 ∷ 0 ∷ 0 ∷ 0 ∷ 0 ∷ 0 ∷ 0 ∷ 0 ∷ 0 ∷ 0 ∷ 0 ∷ 0 ∷ 0 ∷ 0 ∷ 0 ∷ 0 ∷ 0 ∷ 0 ∷ 0 ∷ 0
    ∷ 0 ∷ 0 ∷ 0 ∷ 0 ∷ 0 ∷ 0 ∷ 0 ∷ 0 ∷ []

abbrev plain : Codec
plain = record {
  format_g = λ n. [];
  sha256 = zeros;
  marshal = λ v. [];
  unmarshal = λ b. none;
  opens_object = λ b. false;
  tokens = λ b. [];
}

zeros-length : (b : Text) → length (zeros b) ≡ 32
zeros-length b = refl

abbrev project : Text
project = b'p' ∷ []

colliding :
    compute_fingerprint plain project (b'x' ∷ []) none []
    ≡ compute_fingerprint plain project (b'y' ∷ []) none []
unfolding compute_fingerprint event_hash configured fast_or_slow slow_fingerprint fast_fingerprint
    hash_bytes
colliding = refl

compute_fingerprint-project_example : project ≡ project
compute_fingerprint-project_example =
    compute_fingerprint-project plain zeros-length project project (b'x' ∷ []) (b'y' ∷ []) none none
      [] colliding

abbrev config : HandlerConfig
config = record {
  auth_token = [];
  dedup_window = pos 10;
  dedup_fields = [];
  rate_limit = pos 2;
  min_severity = warning;
  max_payload_size = pos 100;
}

abbrev at_time : ℕ → World
at_time n = record {
  codec = plain;
  dedup_config = none;
  validate_project = none;
  on_event = λ e. inr (b't' ∷ []);
  fresh_id = b'1' ∷ [];
  received_at = n;
  dedup_now = n;
  dedup_later = n;
  rate_now = n;
  between = λ t. t;
}

abbrev fresh_state : State
fresh_state = record { dedup = nothing_seen; shards = no_shards }

abbrev event : RawEvent
event = record {
  id = b'e' ∷ [];
  project_key = b'p' ∷ [];
  payload = b'x' ∷ [];
  source = [];
  severity = [];
  title = [];
  received_at = 0;
}

first_passes :
    (check_dedup_with_window fresh_state.dedup
      (dedup_key config (at_time 7) event)
      (dedup_window_of config (at_time 7) event)
      7
      7
      (λ t. t)).1
    ≡ true
unfolding check_dedup_with_window decide
first_passes = refl

within_window : has_passed 7 (dedup_window_of config (at_time 12) event) 12 ≡ false
unfolding has_passed dedup_window_of window_or project_dedup
within_window = refl

same_key : dedup_key config (at_time 12) event ≡ dedup_key config (at_time 7) event
unfolding dedup_key project_dedup
same_key = refl

submit_event_again_example :
    submit_event config (at_time 12) (submit_event config (at_time 7) fresh_state event).0 event
    ≡ ((submit_event config (at_time 7) fresh_state event).0, inl deduplicated)
submit_event_again_example =
    submit_event_again config (at_time 7) (at_time 12) fresh_state event event first_passes same_key
      within_window

process_event-queued_iff_example :
    ((process_event config (at_time 7) fresh_state event).1
      ≡ queued (fill_defaults (at_time 7) event).id (b't' ∷ []))
    ↔ (Admitted config (at_time 7) fresh_state (fill_defaults (at_time 7) event)
        × ((at_time 7).on_event (with_title (at_time 7) (fill_defaults (at_time 7) event))
            ≡ inr (b't' ∷ [])))
process_event-queued_iff_example =
    process_event-queued_iff config (at_time 7) fresh_state event (b't' ∷ [])

abbrev batch : Request
batch = record {
  method = [];
  authorization = [];
  project = b'p' ∷ [];
  severity = [];
  body = none;
  decoded = inl [];
  lines = [];
  read_error = none;
}
