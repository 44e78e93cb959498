-- ===== src/Notify/Feishu.antt =====
-- notify/feishu.go: Notify, the sending of a card with its retries.
use amp_sentinel.Prelude.{
  ℕ, zero, suc, ◌+◌, Bool, not, ◌&&◌, List, [], ◌∷◌, Option, none, some, is_some, ltb, ◌==◌,
  if◌then◌else◌,
}
use amp_sentinel.Prelude.Int.{ℤ, pos, pos_part}
use amp_sentinel.Prelude.Text.{Text, is_empty}
use amp_sentinel.Intake.Event.{RawEvent}
use amp_sentinel.Project.Registry.{Project}
use amp_sentinel.Diagnosis.Report.{Report}
use amp_sentinel.Notify.Card.{Card, CardText, build_card}
pub mod Sent

pub record FeishuConfig : Type 0 where
  pub default_webhook : Text
  pub sign_key : Text
  pub dashboard_url : Text
  pub timeout : ℤ
  pub retry_count : ℤ

unfoldable pub or_nonzero : ℤ → ℤ → ℤ
or_nonzero (pos zero) default = default
or_nonzero n default = n

-- NewFeishuNotifier: the notifier is its configuration with the defaults. Ten seconds are nanoseconds.
unfoldable pub new_feishu_notifier : FeishuConfig → FeishuConfig
new_feishu_notifier cfg = record cfg {
  timeout = or_nonzero cfg.timeout (pos 10000000000);
  retry_count = or_nonzero cfg.retry_count (pos 3);
}

-- What is posted: the card, and where a key is set, the time with its signature.
pub record Message : Type 0 where
  pub card : Card
  pub signature : Option (ℕ × Text)

-- What an HTTP client's Do gives: an error, or a status with the code that json.Unmarshal reads in the body.
pub data HttpAnswer : Type 0 where
  no_answer : HttpAnswer
  answered : ℕ → Option ℤ → HttpAnswer

pub data SendError : Type 0 where
  transport : SendError
  api_error : ℤ → SendError
  bad_status : ℕ → SendError

pub data NotifyError : Type 0 where
  no_webhook : Text → NotifyError
  marshal_payload : NotifyError
  context_done : NotifyError
  create_request : NotifyError
  failed_after : ℤ → Option SendError → NotifyError

-- The other side: `sign ts` is genSign, `marshal` is json.Marshal, `makes_request` whether http.NewRequestWithContext
-- takes the URL. Of attempt `i`, `done i` says whether the context ends while it is waited for, and `reply i` is Do's.
pub record Network : Type 0 where
  pub now : ℕ
  pub sign : Text → ℕ → Text
  pub marshal : Message → Option Text
  pub makes_request : Text → Bool
  pub done : ℕ → Bool
  pub reply : ℕ → HttpAnswer

unfoldable pub webhook_of : FeishuConfig → Project → Text
webhook_of f proj = if is_empty proj.feishu_webhook then f.default_webhook else proj.feishu_webhook

unfoldable pub refused_with : Option ℤ → Option SendError
refused_with none = none
refused_with (some (pos zero)) = none
refused_with (some code) = some (api_error code)

-- The error of an attempt, or nothing when the message is sent.
unfoldable pub verdict : HttpAnswer → Option SendError
verdict no_answer = some transport
verdict (answered status code) =
    if status == 200 then refused_with code else some (bad_status status)

-- A request that was posted: its URL and body.
pub record Post : Type 0 where
  pub url : Text
  pub body : Text

module _ (net : Network) (f : FeishuConfig) where
  unfoldable pub message_of : CardText → Project → RawEvent → Report → Message
  message_of texts proj event r = record {
    card = build_card texts f.dashboard_url proj event r;
    signature = if is_empty f.sign_key then none else some (net.now, net.sign f.sign_key net.now);
  }

  abbrev pub Sending : Type 0
  Sending = List Post × Option NotifyError

  -- The loop, with so many attempts left, at attempt `i`, after this last error.
  unfoldable pub send_loop : Post → ℕ → ℕ → Option SendError → Sending
  send_loop post zero i last = ([], some (failed_after f.retry_count last))
  send_loop post (suc n) i last =
      let error = verdict (net.reply i) in
      let (posts, result) = send_loop post n (i + 1) error in
      if ltb 0 i && net.done i
      then ([], some context_done)
      else if not (net.makes_request post.url)
      then ([], some create_request)
      else if is_some error
      then (post ∷ posts, result)
      else (post ∷ [], none)

  unfoldable pub send_body : Text → Option Text → Sending
  send_body webhook none = ([], some marshal_payload)
  send_body webhook (some body) =
      send_loop (record { url = webhook; body = body }) (pos_part f.retry_count) 0 none

  unfoldable pub notify : CardText → Project → RawEvent → Report → Sending
  notify texts proj event r =
      let webhook = webhook_of f proj in
      if is_empty webhook
      then ([], some (no_webhook proj.key))
      else send_body webhook (net.marshal (message_of texts proj event r))
