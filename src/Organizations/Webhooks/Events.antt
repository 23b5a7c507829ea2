-- ===== src/Organizations/Webhooks/Events.antt =====
-- Which webhooks `enqueue_event` of organizations/webhooks.py sends an event to.
use govahee.Prelude.{
  ℕ, String, ◌≡◌, refl, ap, sym, ◌∙◌, true, none, All, All-append, List, [], ◌∷◌, ◌++◌, some, keep,
  map,
}
use govahee.Organizations.Models.{Organization, org_by_pk}
use govahee.Billing.Models.{Payload}
use govahee.Billing.State.{next_pk}
use govahee.Organizations.Webhooks.{
  Webhook, WebhookDelivery, Envelope, pending, Hooks, listens, new_delivery, enqueue_hooks,
  may_send, enqueue_for, enqueue_event,
}

-- the webhooks of deliveries, in the order of their creation, and their keys
pub sent_to : List WebhookDelivery → List ℕ
sent_to [] = []
sent_to (d ∷ ds) = sent_to ds ++ (d.webhook ∷ [])

pub keys_of : List WebhookDelivery → List ℕ
keys_of [] = []
keys_of (d ∷ ds) = keys_of ds ++ (d.id ∷ [])

-- what every delivery of an event has: its text and its payload, and no attempt so far
pub IsNew : String → Envelope → WebhookDelivery → Type 0
IsNew event envelope d =
    (d.event ≡ event)
    × (d.payload ≡ envelope)
    × (d.status ≡ pending)
    × (d.attempt_count ≡ 0)
    × (d.next_retry_at ≡ none)

-- `fresh` are the deliveries that were made, newest first, as tables are
pub record Sent (event : String) (envelope : Envelope) (hooks : List Webhook) (s : Hooks)
    (r : List ℕ × Hooks) : Type 0 where
  pub fresh : List WebhookDelivery
  pub stored : r.1.deliveries ≡ fresh ++ s.deliveries
  pub targets : sent_to fresh ≡ map (λ (w : Webhook). w.id) hooks
  pub news : All (IsNew event envelope) fresh
  pub queued : r.1.tasks ≡ map (λ (d : WebhookDelivery). d.id) fresh ++ s.tasks
  pub answer : r.0 ≡ keys_of fresh
  pub webhooks : r.1.webhooks ≡ s.webhooks
  pub billing : r.1.billing ≡ s.billing

sent_to_last :
    (ds : List WebhookDelivery) (d : WebhookDelivery)
    → sent_to (ds ++ (d ∷ [])) ≡ d.webhook ∷ sent_to ds
unfolding sent_to
sent_to_last [] d = refl
sent_to_last (e ∷ ds) d = ap (λ (xs : List ℕ). xs ++ (e.webhook ∷ [])) (sent_to_last ds d)

keys_of_last :
    (ds : List WebhookDelivery) (d : WebhookDelivery) → keys_of (ds ++ (d ∷ [])) ≡ d.id ∷ keys_of ds
unfolding keys_of
keys_of_last [] d = refl
keys_of_last (e ∷ ds) d = ap (λ (xs : List ℕ). xs ++ (e.id ∷ [])) (keys_of_last ds d)

map_last :
    (ds : List WebhookDelivery) (d : WebhookDelivery) (ns : List ℕ)
    → map (λ (e : WebhookDelivery). e.id) ds ++ (d.id ∷ ns)
      ≡ map (λ (e : WebhookDelivery). e.id) (ds ++ (d ∷ [])) ++ ns
map_last [] d ns = refl
map_last (e ∷ ds) d ns = ap (λ (xs : List ℕ). e.id ∷ xs) (map_last ds d ns)

append_last :
    (xs : List WebhookDelivery) (d : WebhookDelivery) (ys : List WebhookDelivery)
    → xs ++ (d ∷ ys) ≡ (xs ++ (d ∷ [])) ++ ys
append_last [] d ys = refl
append_last (x ∷ xs) d ys = ap (λ (zs : List WebhookDelivery). x ∷ zs) (append_last xs d ys)

-- what an event of an organization carries
abbrev pub envelope_of : ℕ → String → Payload → ℕ → Envelope
envelope_of org event payload now = record {
  event = event;
  created_at = now;
  organization_id = org;
  data_ = payload;
}

module _ (org : ℕ) (event : String) (payload : Payload) where
  enqueue_hooks-Sent :
      (hooks : List Webhook) (s : Hooks)
      → Sent event
          (envelope_of org event payload s.billing.now)
          hooks
          s
          (enqueue_hooks org event payload hooks s)
  unfolding enqueue_hooks new_delivery
  enqueue_hooks-Sent [] s = record {
    fresh = [];
    stored = refl;
    targets = unfold sent_to in refl;
    news = tt;
    queued = refl;
    answer = unfold keys_of in refl;
    webhooks = refl;
    billing = refl;
  }
  enqueue_hooks-Sent (hook ∷ hooks) s =
      let pk = next_pk (map (λ (d : WebhookDelivery). d.id) s.deliveries) in
      let d = new_delivery org s.billing.now event payload pk hook in
      let ih =
        enqueue_hooks-Sent hooks
          (record s { deliveries = d ∷ s.deliveries; tasks = pk ∷ s.tasks }) in
      let envelope = envelope_of org event payload s.billing.now in
      record {
        fresh = ih.fresh ++ (d ∷ []);
        stored = ih.stored ∙ append_last ih.fresh d s.deliveries;
        targets = sent_to_last ih.fresh d ∙ ap (λ (xs : List ℕ). hook.id ∷ xs) ih.targets;
        news =
            All-append (IsNew event envelope) ih.fresh (d ∷ [])
              ((unfold IsNew in (refl, refl, refl, refl, refl)), tt) ih.news;
        queued = ih.queued ∙ map_last ih.fresh d s.tasks;
        answer = ap (λ (xs : List ℕ). pk ∷ xs) ih.answer ∙ sym (keys_of_last ih.fresh d);
        webhooks = ih.webhooks;
        billing = ih.billing;
      }

-- An event of an organization whose plan has webhooks reaches its webhooks, in their order, that
-- are active and listen to the event or to all events, and no other webhook: each gets one delivery,
-- pending, not attempted and with the event and its payload, and for each delivery the task with its
-- key is queued and the key is answered. Webhooks and billing stay as they were.
pub enqueue_event-Sent :
    (pk : ℕ) (event : String) (payload : Payload) (s : Hooks) (org : Organization)
    → org_by_pk pk s.billing.organizations ≡ some org
    → may_send org.id s.billing ≡ true
    → Sent event
        (envelope_of org.id event payload s.billing.now)
        (keep (listens org.id event) s.webhooks)
        s
        (enqueue_event pk event payload s)
unfolding enqueue_event enqueue_for
enqueue_event-Sent pk event payload s org found may =
    rw (found, may)
      (enqueue_hooks-Sent org.id event payload (keep (listens org.id event) s.webhooks) s)
