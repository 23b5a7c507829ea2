-- ===== src/Organizations/Webhooks/Retries.antt =====
-- How often organizations/webhooks.py tries to deliver an event, and when it stops.
use govahee.Prelude.{
  ◌∙◌, Bool, false, ◌&&◌, ltb, ℕ, ◌+◌, ◌≤◌, ◌<◌, ◌≡◌, refl, inl, inr, true, none, some, arith, leb,
  Bool-cases,
}
use govahee.Exec.{Result, ok, err, http_exception}
use govahee.Organizations.Webhooks.{
  uncaught, WebhookDelivery, success, failed, max_attempts, retry_delay, schedule_retry, Outcome,
  response, http_error, unreachable, is_accepted, attempted, post_delivery, item_or_last,
}

-- the receiver has taken the event
unfoldable pub is_delivered : Outcome → Bool
is_delivered (response code body) = leb 200 code && ltb code 300
is_delivered _ = false

-- how a failed attempt leaves a delivery: it is given up, or will be tried again
pub data Failed (now : ℕ) (d : WebhookDelivery) : Type 0 where
  given_up : d.next_retry_at ≡ none → 5 ≤ d.attempt_count → Failed now d
  again :
      (at : ℕ)
      → d.next_retry_at ≡ some at
      → d.attempt_count < 5
      → now + 60 ≤ at
      → at ≤ now + 7200
      → Failed now d

-- how an attempt on `d` ends, by what the request gave
pub data Attempt (now : ℕ) (outcome : Outcome) (d : WebhookDelivery) (r : Result WebhookDelivery)
    : Type 0 where
  raised : outcome ≡ uncaught → r ≡ err http_exception → Attempt now outcome d r
  taken :
      (e : WebhookDelivery)
      → is_delivered outcome ≡ true
      → r ≡ ok e
      → e.status ≡ success
      → e.next_retry_at ≡ none
      → e.attempt_count ≡ d.attempt_count + 1
      → Attempt now outcome d r
  refused :
      (e : WebhookDelivery)
      → is_delivered outcome ≡ false
      → r ≡ ok e
      → e.status ≡ failed
      → e.attempt_count ≡ d.attempt_count + 1
      → Failed now e
      → Attempt now outcome d r

retry_delay-bounds : (n : ℕ) → n < 5 → (60 ≤ retry_delay n) × (retry_delay n ≤ 7200)
unfolding retry_delay item_or_last
retry_delay-bounds n h = ground arith

schedule_retry-Failed :
    (now : ℕ) (d : WebhookDelivery)
    → Failed now (schedule_retry now d) × ((schedule_retry now d).status ≡ failed)
unfolding schedule_retry
schedule_retry-Failed now d = elim (Bool-cases (leb max_attempts d.attempt_count)) [
  | inl over ↦ rw (over) (given_up refl (ground (arith, over)), refl)
  | inr more ↦
      let (low, high) = retry_delay-bounds d.attempt_count (ground (arith, more)) in
      rw (more) (
        again (now + retry_delay d.attempt_count) refl (ground (arith, more)) (omega (arith, low))
            (omega (arith, high)),
        refl,
      )
]

schedule_retry_count :
    (now : ℕ) (d : WebhookDelivery) → (schedule_retry now d).attempt_count ≡ d.attempt_count
unfolding schedule_retry
schedule_retry_count now d = ground arith

refused_by :
    (now : ℕ) (outcome : Outcome) (d e : WebhookDelivery)
    → is_delivered outcome ≡ false
    → e.attempt_count ≡ d.attempt_count + 1
    → Attempt now outcome d (ok (schedule_retry now e))
refused_by now outcome d e no_ counted =
    let (failed_, status) = schedule_retry-Failed now e in
    refused (schedule_retry now e) no_ refl status (schedule_retry_count now e ∙ counted) failed_

-- Each attempt ends by what the request gave. A response of 200 to 299 makes the delivery a success
-- with no retry. Any other response, an HTTPError and an error of the connection leave it failed,
-- and then it is the fifth attempt or a later one and no retry is set, or fewer than five attempts
-- were made and the retry is set between one minute and two hours from now, so that the last entry
-- of RETRY_DELAYS, six hours, is never used. In all these cases the attempt is counted. Another
-- exception ends the task before the delivery is saved.
pub post_delivery-Attempt :
    (now : ℕ) (outcome : Outcome) (d : WebhookDelivery)
    → Attempt now outcome d (post_delivery now outcome d)
unfolding post_delivery attempted is_delivered
post_delivery-Attempt now (response code body) d = elim (Bool-cases (is_accepted code)) [
  | inl accepted ↦ rw (accepted) (taken _ accepted refl refl refl refl)
  | inr other ↦ rw (other) (refused_by now (response code body) d _ other refl)
]
post_delivery-Attempt now (http_error code body) d =
    refused_by now (http_error code body) d _ refl refl
post_delivery-Attempt now (unreachable message) d =
    refused_by now (unreachable message) d _ refl refl
post_delivery-Attempt now uncaught d = raised refl refl
