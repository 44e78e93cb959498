-- ===== src/Notify/Feishu/Sent.antt =====
-- notify/feishu.go, Notify: when a card is sent, and what is posted on the way.
use amp_sentinel.Prelude.{
  ℕ, zero, suc, ◌+◌, ◌≤◌, ◌<◌, ◌≡◌, ◌↔◌, ◌⊎◌, refl, ap, ◌∙◌, inl, inr, Bool, true, false, not, ◌&&◌,
  Option, none, some, is_some, arith, Bool-cases, Option-cases, ==_iff, ltb, ◌==◌, length, all,
}
use mathlib.Core.Path.{subst}
use amp_sentinel.Prelude.Int.{pos_part}
use amp_sentinel.Prelude.Text.{Text, text_eq, text_eq_refl, is_empty}
use amp_sentinel.Intake.Event.{RawEvent}
use amp_sentinel.Project.Registry.{Project}
use amp_sentinel.Diagnosis.Report.{Report}
use amp_sentinel.Notify.Card.{CardText}
use amp_sentinel.Notify.Feishu.{
  FeishuConfig, Network, Post, SendError, verdict, webhook_of, message_of, send_loop, send_body,
  notify,
}

module _ (net : Network) where
  -- The context does not end before attempt `i`.
  abbrev pub waits : ℕ → Bool
  waits i = not (ltb 0 i && net.done i)

  -- Of the `n` attempts from `i` on, attempt `k` is accepted, and all before it are answered by an error.
  pub record IsAccepted (i n k : ℕ) : Type 0 where
    pub after : i ≤ k
    pub in_time : k < i + n
    pub accepted : verdict (net.reply k) ≡ none
    pub tried : (j : ℕ) → i ≤ j → j < k → is_some (verdict (net.reply j)) ≡ true
    pub waited : (j : ℕ) → i ≤ j → j ≤ k → waits j ≡ true

  first-IsAccepted :
      (i n : ℕ) → waits i ≡ true → verdict (net.reply i) ≡ none → IsAccepted i (suc n) i
  first-IsAccepted i n w v = record {
    after = omega arith;
    in_time = omega arith;
    accepted = v;
    tried = λ j a b. absurd (omega arith);
    waited = λ j a b. let same : i ≡ j = omega arith in subst (λ m. waits m ≡ true) same w;
  }

  later-IsAccepted :
      (i n k : ℕ)
      → waits i ≡ true
      → is_some (verdict (net.reply i)) ≡ true
      → IsAccepted (i + 1) n k
      → IsAccepted i (suc n) k
  later-IsAccepted i n k w v h = record {
    after = let a = h.after in omega arith;
    in_time = let a = h.in_time in omega arith;
    accepted = h.accepted;
    tried = λ j a b.
        from_next i (λ m. is_some (verdict (net.reply m)) ≡ true) v j a (λ c. h.tried j c b);
    waited = λ j a b. from_next i (λ m. waits m ≡ true) w j a (λ c. h.waited j c b);
  }
    where
      from_next : (i : ℕ) (P : ℕ → Type 0) → P i → (j : ℕ) → i ≤ j → (i + 1 ≤ j → P j) → P j
      from_next i P p j a f = elim (Bool-cases (i == j)) [
        | inl e ↦ subst P ((==_iff i j).0 e) p
        | inr e ↦ f (ground (arith, a, e, ==_iff i j))
      ]

  earlier-IsAccepted : (i n k : ℕ) → IsAccepted i (suc n) k → (i ≡ k) ⊎ IsAccepted (i + 1) n k
  earlier-IsAccepted i n k h = elim (Bool-cases (i == k)) [
    | inl e ↦ inl ((==_iff i k).0 e)
    | inr e ↦ inr (record {
      after = let a = h.after in ground (arith, a, e, ==_iff i k);
      in_time = let a = h.in_time in omega arith;
      accepted = h.accepted;
      tried = λ j a b. h.tried j (omega arith) b;
      waited = λ j a b. h.waited j (omega arith) b;
    })
  ]

  none_left : (i k : ℕ) → IsAccepted i 0 k → ⊥
  none_left i k h = let a = h.after in let b = h.in_time in omega arith

  module _ (f : FeishuConfig) (post : Post) where
    send_loop_sent :
        (n i : ℕ) (last : Option SendError)
        → net.makes_request post.url ≡ true
        → ((send_loop net f post n i last).1 ≡ none) ↔ ((k : ℕ) × IsAccepted i n k)
    unfolding send_loop
    send_loop_sent zero i last made =
        (λ h. absurd (ground (arith, h)), λ w. absurd (none_left i w.0 w.1))
    send_loop_sent (suc n) i last made =
        let on = send_loop_sent n (i + 1) (verdict (net.reply i)) made in
        elim (Bool-cases (ltb 0 i && net.done i)) [
          | inl e ↦ (
            λ h. absurd (ground (arith, e, h)),
            λ w. let now = w.1.waited i (omega arith) w.1.after in absurd (ground (arith, e, now)),
          )
          | inr e ↦ elim (Option-cases (verdict (net.reply i))) [
            | inl v ↦ (
              λ h. (i, first-IsAccepted i n (ground (arith, e)) v),
              λ w. ground (arith, e, made, v),
            )
            | inr (error, v) ↦ (
              λ h.
                  let (k, a) = on.0 (ground (arith, e, made, v, h)) in
                  (k, later-IsAccepted i n k (ground (arith, e)) (ground (arith, v)) a),
              λ w. elim (earlier-IsAccepted i n w.0 w.1) [
                | inl same ↦
                    let accepted : verdict (net.reply i) ≡ none =
                      ap (λ m. verdict (net.reply m)) same ∙ w.1.accepted in
                    absurd (ground (arith, v, accepted))
                | inr a ↦ let sent = on.1 (w.0, a) in ground (arith, e, made, v, sent)
              ],
            )
          ]
        ]

    send_loop_posts :
        (n i : ℕ) (last : Option SendError)
        → (length (send_loop net f post n i last).0 ≤ n)
          × (all (λ p. text_eq p.url post.url) (send_loop net f post n i last).0 ≡ true)
    unfolding send_loop
    send_loop_posts zero i last = (omega arith, refl)
    send_loop_posts (suc n) i last =
        ground (arith, send_loop_posts n (i + 1) (verdict (net.reply i)), text_eq_refl post.url)

-- For a project with a webhook, its own or the default one, whose URL makes a request, and a message that can be marshalled: Notify reports
-- success exactly if one of its attempts is accepted, every attempt before it is answered by an error, and the context lasts until then; and
-- in any case it posts at most as often as the retry count says, and only to that webhook.
pub notify_sent_iff :
    (net : Network) (f : FeishuConfig) (texts : CardText) (proj : Project) (event : RawEvent)
    (r : Report) (body : Text)
    → is_empty (webhook_of f proj) ≡ false
    → net.makes_request (webhook_of f proj) ≡ true
    → net.marshal (message_of net f texts proj event r) ≡ some body
    → (((notify net f texts proj event r).1 ≡ none)
        ↔ ((k : ℕ) × IsAccepted net 0 (pos_part f.retry_count) k))
      × (length (notify net f texts proj event r).0 ≤ pos_part f.retry_count)
      × (all (λ p. text_eq p.url (webhook_of f proj)) (notify net f texts proj event r).0 ≡ true)
unfolding notify send_body
notify_sent_iff net f texts proj event r body there made marshalled =
    let post : Post = record { url = webhook_of f proj; body = body } in
    let n = pos_part f.retry_count in
    let (often, there_only) = send_loop_posts net f post n 0 none in
    rw (there, marshalled) (send_loop_sent net f post n 0 none made, often, there_only)
