-- ===== src/Organizations/Tests.antt =====
-- Runs of the code of webhooks and members, and its theorems at concrete inputs.
mod Fixtures
mod Teams
mod Seeds
use Fixtures.{founder}
use govahee.Exec.{ok, err, validation}
use govahee.Organizations.Models.{OrganizationMembership}
use govahee.Organizations.Members.{owners, perform_destroy, perform_destroy_keeps_owner}
use govahee.Organizations.Members.Update.{update_member, update_member_last_owner}
use govahee.Prelude.{◌≤◌, ◌≡◌, refl, true, false, [], ◌∷◌, none, some, arith, keep}
use govahee.Billing.Tests.Fixtures.{academy, database, open_payment}
use govahee.Billing.Models.{monthly, flag}
use govahee.Billing.State.{Db}
use govahee.Billing.Entitlements.{get_entitlements, subscription_entitlements}
use govahee.Organizations.Webhooks.{
  Webhook, WebhookDelivery, pending, failed, Hooks, Outcome, http_error, unreachable,
  schedule_retry, attempted, post_delivery, listens, may_send, new_delivery, enqueue_hooks,
  enqueue_for, enqueue_event,
}
use govahee.Organizations.Webhooks.Retries.{Attempt, post_delivery-Attempt}
use govahee.Prelude.Text.{prefix}
use govahee.Organizations.Webhooks.Events.{envelope_of, Sent, enqueue_event-Sent}

abbrev hook : Webhook
hook = record {
  id = 3;
  organization = 7;
  url = "https://example.org/hook";
  secret = "s";
  events = "certificate.issued" ∷ [];
  is_active = true;
}

abbrev muted : Webhook
muted = record hook { id = 4; is_active = false }

abbrev stranger : Webhook
stranger = record hook { id = 5; organization = 8; events = "*" ∷ [] }

-- the plan of the academy has webhooks
abbrev with_webhooks : Db
with_webhooks =
    let db = database open_payment in
    record db {
      plans =
          record {
            id = 3;
            code = "professional";
            name = "Professional";
            name_fa = "";
            interval = monthly;
            price_toman = 890000;
            is_active = true;
            sort_order = 2;
            capabilities = ("webhooks", flag true) ∷ [];
          }
          ∷ [];
    }

abbrev hooks : Hooks
hooks = record {
  billing = with_webhooks;
  webhooks = muted ∷ stranger ∷ hook ∷ [];
  deliveries = [];
  tasks = [];
}

abbrev delivery : WebhookDelivery
delivery = record {
  id = 1;
  webhook = 3;
  event = "certificate.issued";
  payload = record {
    event = "certificate.issued";
    created_at = 1000;
    organization_id = 7;
    data_ = [];
  };
  status = pending;
  response_code = none;
  response_body = "";
  attempt_count = 0;
  next_retry_at = none;
}

post_delivery-Attempt_example :
    Attempt 1000
      (http_error 503 "down")
      delivery
      (post_delivery 1000 (http_error 503 "down") delivery)
post_delivery-Attempt_example = post_delivery-Attempt 1000 (http_error 503 "down") delivery

abbrev tried : WebhookDelivery
tried = record delivery { status = failed; attempt_count = 4; next_retry_at = some 900 }

abbrev late : Hooks
late = record hooks { deliveries = tried ∷ [] }

enqueue_event-Sent_example :
    Sent "certificate.issued"
      (envelope_of 7 "certificate.issued" [] 1000)
      (keep (listens 7 "certificate.issued") (muted ∷ stranger ∷ hook ∷ []))
      hooks
      (enqueue_event 7 "certificate.issued" [] hooks)
unfolding may_send get_entitlements subscription_entitlements
enqueue_event-Sent_example = enqueue_event-Sent 7 "certificate.issued" [] hooks academy refl refl

-- After the fifth attempt no time is set for another one.
fifth_attempt :
    post_delivery 1000 (unreachable "timed out") tried
    ≡ ok (record tried { attempt_count = 5; next_retry_at = none; response_body = "timed out" })
unfolding post_delivery attempted schedule_retry prefix
fifth_attempt = refl

-- One delivery, to the active webhook of the organization.
one_sent : (enqueue_event 7 "certificate.issued" [] hooks).0 ≡ 1 ∷ []
unfolding enqueue_event enqueue_for may_send get_entitlements subscription_entitlements
    enqueue_hooks listens new_delivery
one_sent = refl

abbrev partner : OrganizationMembership
partner = record founder { id = 2; user = 4 }

perform_destroy_keeps_owner_example : 1 ≤ owners 7 (partner ∷ [])
unfolding owners perform_destroy
perform_destroy_keeps_owner_example =
    perform_destroy_keeps_owner founder (founder ∷ partner ∷ []) (partner ∷ []) refl refl
      (omega arith) refl

update_member_last_owner_example :
    (owners 7 (update_member founder "viewer" true (founder ∷ [])).1 ≡ 0)
    × ((perform_destroy founder (founder ∷ [])).0
        ≡ err (validation "The last owner cannot be removed."))
unfolding owners
update_member_last_owner_example =
    update_member_last_owner founder (founder ∷ []) refl refl refl refl

-- The same removal with the partner gone is refused.
founder_stays : (perform_destroy founder (founder ∷ [])).1 ≡ founder ∷ []
unfolding perform_destroy owners
founder_stays = refl
