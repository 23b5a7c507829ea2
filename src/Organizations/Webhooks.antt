-- ===== src/Organizations/Webhooks.antt =====
-- organizations/webhooks.py and organizations/tasks.py: the deliveries of events to the webhooks of
-- an organization, and their retries. What the HTTP request gives is an argument.
pub mod Retries
pub mod Overlap
pub mod Events
use govahee.Prelude.{
  ℕ, zero, suc, ◌++◌, ◌+◌, ◌-◌, String, Bool, true, false, ◌&&◌, ◌||◌, not, List, [], ◌∷◌, Option,
  none, some, ◌==◌, ltb, leb, keep, find, update, map, length, if◌then◌else◌,
}
use govahee.Prelude.Text.{member, prefix, get}
use govahee.Exec.{Exec, Result, ok, err, http_exception}
use govahee.Organizations.Models.{org_by_pk, Organization}
use govahee.Billing.Models.{Payload, value_truth}
use govahee.Billing.State.{Db, next_pk}
use govahee.Billing.Entitlements.{get_entitlements}

pub record Webhook : Type 0 where
  pub id : ℕ
  pub organization : ℕ
  pub url : String
  pub secret : String
  pub events : List String
  pub is_active : Bool

-- `WebhookDelivery.Status`
pub data DeliveryStatus : Type 0 where
  pending success failed : DeliveryStatus

-- the `payload` of a delivery
pub record Envelope : Type 0 where
  pub event : String
  pub created_at : ℕ
  pub organization_id : ℕ
  pub data_ : Payload

pub record WebhookDelivery : Type 0 where
  pub id : ℕ
  pub webhook : ℕ
  pub event : String
  pub payload : Envelope
  pub status : DeliveryStatus
  pub response_code : Option ℕ
  pub response_body : String
  pub attempt_count : ℕ
  pub next_retry_at : Option ℕ

-- `tasks` are the deliveries that `deliver_webhook_delivery.delay` was called with
pub record Hooks : Type 0 where
  pub billing : Db
  pub webhooks : List Webhook
  pub deliveries : List WebhookDelivery
  pub tasks : List ℕ

abbrev pub retry_delays : List ℕ
retry_delays = 60 ∷ 300 ∷ 1800 ∷ 7200 ∷ 21600 ∷ []

abbrev pub max_attempts : ℕ
max_attempts = 5

-- the item with this number, or the last one where there are fewer
unfoldable pub item_or_last : ℕ → ℕ → List ℕ → ℕ
item_or_last last n [] = last
item_or_last last n (x ∷ xs) = let rest = item_or_last x (n - 1) xs in if n == 0 then x else rest

-- `RETRY_DELAYS[min(delivery.attempt_count - 1, len(RETRY_DELAYS) - 1)]`
unfoldable pub retry_delay : ℕ → ℕ
unfolding item_or_last
retry_delay attempt_count = item_or_last 0 (attempt_count - 1) retry_delays

-- `_schedule_retry`
unfoldable pub schedule_retry : ℕ → WebhookDelivery → WebhookDelivery
schedule_retry now d =
    if leb max_attempts d.attempt_count
    then record d { status = failed; next_retry_at = none }
    else record d { status = failed; next_retry_at = some (now + retry_delay d.attempt_count) }

-- the end of the request: a response; an HTTPError; an URLError, TimeoutError or OSError; or an
-- exception that nothing catches, as http.client's BadStatusLine and IncompleteRead are, or one
-- that reading the body of an HTTPError raises
pub data Outcome : Type 0 where
  response : ℕ → String → Outcome
  http_error : ℕ → String → Outcome
  unreachable : String → Outcome
  uncaught : Outcome

-- `200 <= response.status < 300`
abbrev pub is_accepted : ℕ → Bool
is_accepted code = leb 200 code && ltb code 300

-- the object after the `try` statement; a body is text here, and its 2000 bytes are characters
unfoldable pub attempted : ℕ → Outcome → WebhookDelivery → Result WebhookDelivery
attempted now (response code body) d =
    let e = record d { response_code = some code; response_body = prefix 2000 body } in
    if is_accepted code
    then ok (record e { status = success; next_retry_at = none })
    else ok (schedule_retry now e)
attempted now (http_error code body) d =
    ok (
      schedule_retry now (record d { response_code = some code; response_body = prefix 2000 body }))
attempted now (unreachable message) d =
    ok (schedule_retry now (record d { response_code = none; response_body = prefix 500 message }))
attempted now uncaught d = err http_exception

-- `post_delivery`, on the object
unfoldable pub post_delivery : ℕ → Outcome → WebhookDelivery → Result WebhookDelivery
post_delivery now outcome d =
    attempted now outcome (record d { attempt_count = d.attempt_count + 1 })

-- its save
abbrev pub write_delivery : WebhookDelivery → WebhookDelivery → WebhookDelivery
write_delivery d row = record row {
  status = d.status;
  response_code = d.response_code;
  response_body = d.response_body;
  attempt_count = d.attempt_count;
  next_retry_at = d.next_retry_at;
}

abbrev pub is_success : DeliveryStatus → Bool
is_success success = true
is_success _ = false

abbrev pub is_failed : DeliveryStatus → Bool
is_failed failed = true
is_failed _ = false

-- the object is saved, unless an exception came first
unfoldable pub save_delivery :
    ℕ → Result WebhookDelivery → List WebhookDelivery → Result (Unit {0}) × List WebhookDelivery
save_delivery pk (err e) rows = (err e, rows)
save_delivery pk (ok d) rows = (ok tt, update (λ r. r.id == pk) (write_delivery d) rows)

unfoldable pub deliver_found :
    ℕ
    → Outcome
    → Option WebhookDelivery
    → List WebhookDelivery
    → Result (Unit {0}) × List WebhookDelivery
deliver_found now outcome none rows = (ok tt, rows)
deliver_found now outcome (some d) rows =
    if is_success d.status
    then (ok tt, rows)
    else save_delivery d.id (post_delivery now outcome d) rows

abbrev pub delivery_by_pk : ℕ → List WebhookDelivery → Option WebhookDelivery
delivery_by_pk pk = find (λ d. d.id == pk)

-- `deliver_webhook_delivery`
unfoldable pub deliver_webhook_delivery : ℕ → Outcome → Exec Hooks (Unit {0})
deliver_webhook_delivery pk outcome s =
    let r = deliver_found s.billing.now outcome (delivery_by_pk pk s.deliveries) s.deliveries in
    (r.0, record s { deliveries = r.1 })

-- the filter of `retry_pending_webhooks`
unfoldable pub is_due : ℕ → WebhookDelivery → Bool
is_due now d = elim (d.next_retry_at) [
  | none ↦ false
  | some at ↦ is_failed d.status && (leb at now && not (leb 5 d.attempt_count))
]

first : ℕ → List WebhookDelivery → List WebhookDelivery
first zero ds = []
first (suc n) [] = []
first (suc n) (d ∷ ds) = d ∷ first n ds

-- `retry_pending_webhooks`: the count, and the tasks it adds
unfoldable pub retry_pending_webhooks : Hooks → ℕ × Hooks
unfolding first
retry_pending_webhooks s =
    let due = first 50 (keep (is_due s.billing.now) s.deliveries) in
    (length due, record s { tasks = map (λ d. d.id) due ++ s.tasks })

-- the webhooks that `enqueue_event` sends an event to
unfoldable pub listens : ℕ → String → Webhook → Bool
listens organization event hook =
    (hook.organization == organization && hook.is_active)
    && (member event hook.events || member "*" hook.events)

unfoldable pub new_delivery : ℕ → ℕ → String → Payload → ℕ → Webhook → WebhookDelivery
new_delivery organization now event payload pk hook = record {
  id = pk;
  webhook = hook.id;
  event = event;
  payload = record {
    event = event;
    created_at = now;
    organization_id = organization;
    data_ = payload;
  };
  status = pending;
  response_code = none;
  response_body = "";
  attempt_count = 0;
  next_retry_at = none;
}

-- the loop over the webhooks
unfoldable pub enqueue_hooks : ℕ → String → Payload → List Webhook → Hooks → List ℕ × Hooks
enqueue_hooks organization event payload [] s = ([], s)
enqueue_hooks organization event payload (hook ∷ hooks) s =
    let pk = next_pk (map (λ d. d.id) s.deliveries) in
    let r = enqueue_hooks organization event payload hooks (record s {
      deliveries = new_delivery organization s.billing.now event payload pk hook ∷ s.deliveries;
      tasks = pk ∷ s.tasks;
    }) in
    (pk ∷ r.0, r.1)

-- `get_entitlements(org).get("webhooks")`
unfoldable pub may_send : ℕ → Db → Bool
may_send organization db = elim (get "webhooks" (get_entitlements organization db)) [
  | none ↦ false
  | some v ↦ value_truth v
]

unfoldable pub enqueue_for : Option Organization → String → Payload → Hooks → List ℕ × Hooks
enqueue_for none event payload s = ([], s)
enqueue_for (some org) event payload s =
    if may_send org.id s.billing
    then enqueue_hooks org.id event payload (keep (listens org.id event) s.webhooks) s
    else ([], s)

-- `enqueue_event`
unfoldable pub enqueue_event : ℕ → String → Payload → Hooks → List ℕ × Hooks
enqueue_event organization event payload s =
    enqueue_for (org_by_pk organization s.billing.organizations) event payload s
