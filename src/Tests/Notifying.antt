-- ===== src/Tests/Notifying.antt =====
-- Examples for the notifier and the texts that it shows.
use amp_sentinel.Prelude.{
  ℕ, ◌==◌, ◌≤◌, ◌↔◌, ◌≡◌, refl, true, false, [], ◌∷◌, none, some, length, all, if◌then◌else◌,
}
use amp_sentinel.Prelude.Text.{text_eq}
use amp_sentinel.Prelude.Int.{pos}
use amp_sentinel.Notify.Card.{CardText}
use amp_sentinel.Notify.Feishu.{FeishuConfig, Network, no_answer, answered, webhook_of, notify}
use amp_sentinel.Notify.Feishu.Sent.{IsAccepted, notify_sent_iff}
use amp_sentinel.Tests.Engineering.{event, project, no_report}

abbrev feishu : FeishuConfig
feishu = record {
  default_webhook = b'h' ∷ [];
  sign_key = [];
  dashboard_url = [];
  timeout = pos 10;
  retry_count = pos 3;
}

abbrev network : Network
network = record {
  now = 100;
  sign = λ key ts. [];
  marshal = λ m. some (b'{' ∷ b'}' ∷ []);
  makes_request = λ url. true;
  done = λ i. false;
  reply = λ i. if i == 1 then answered 200 none else no_answer;
}

abbrev texts : CardText
texts = record {
  times = record { reformat = λ l s. none; format_unix = λ t. []; per_thousand = λ t. t };
  format_f = λ x. [];
  unmarshal = λ s. none;
  to_upper = λ s. s;
  seconds_text = λ n. [];
}

notify_sent_iff_example :
    (((notify network feishu texts project event no_report).1 ≡ none)
      ↔ ((k : ℕ) × IsAccepted network 0 3 k))
    × (length (notify network feishu texts project event no_report).0 ≤ 3)
    × (all
          (λ p. text_eq p.url (webhook_of feishu project))
          (notify network feishu texts project event no_report).0
        ≡ true)
unfolding webhook_of
notify_sent_iff_example =
    notify_sent_iff network feishu texts project event no_report (b'{' ∷ b'}' ∷ []) refl refl refl
