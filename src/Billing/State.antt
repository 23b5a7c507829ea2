-- ===== src/Billing/State.antt =====
-- The rows of the database that the billing app reads and writes, the clock, and the operations
-- of Django's ORM that the code calls on them.
use govahee.Prelude.{
  ℕ, ◌+◌, String, List, [], ◌∷◌, Option, none, ◌==◌, ltb, str_eq, find, update, if◌then◌else◌,
}
use govahee.Prelude.Text.{decimal}
use govahee.Exec.{Exec, modify}
use govahee.Organizations.Models.{Organization}
use govahee.Billing.Models.{Plan, Subscription, PaymentTransaction, UsageCounter, AuditLog, Payload}

-- One call reads the clock as often as it wants and gets one time: `now` is `timezone.now()` in
-- seconds, `period` is `current_period()`, the text YYYY-MM of the local date.
pub record Db : Type 0 where
  pub now : ℕ
  pub period : String
  pub trial_days : ℕ
  pub organizations : List Organization
  pub plans : List Plan
  pub subscriptions : List Subscription
  pub payments : List PaymentTransaction
  pub usage : List UsageCounter
  pub audit : List AuditLog

-- a pk that no row of the table has: one above the largest
abbrev pub next_pk : List ℕ → ℕ
next_pk [] = 1
next_pk (n ∷ ns) = let m = next_pk ns in if ltb n m then m else n + 1

-- `Subscription.objects.filter(organization=organization).first()`
abbrev pub subscription_of : ℕ → List Subscription → Option Subscription
subscription_of org = find (λ s. s.organization == org)

abbrev pub update_subscription :
    ℕ → (Subscription → Subscription) → List Subscription → List Subscription
update_subscription org = update (λ s. s.organization == org)

abbrev pub plan_by_pk : ℕ → List Plan → Option Plan
plan_by_pk pk = find (λ p. p.id == pk)

abbrev pub plan_by_code : String → List Plan → Option Plan
plan_by_code code = find (λ p. str_eq p.code code)

abbrev pub payment_by_pk : ℕ → List PaymentTransaction → Option PaymentTransaction
payment_by_pk pk = find (λ p. p.id == pk)

abbrev pub update_payment :
    ℕ
    → (PaymentTransaction → PaymentTransaction)
    → List PaymentTransaction
    → List PaymentTransaction
update_payment pk = update (λ p. p.id == pk)

-- `log_action(action, entity, entity_id, organization, metadata)` with no actor and no request
abbrev pub log_action : String → String → ℕ → Option ℕ → Payload → Exec Db (Unit {0})
log_action action entity entity_id organization metadata = modify λ db. record db {
  audit =
      record {
        organization = organization;
        actor = none;
        actor_label = "";
        action = action;
        entity = entity;
        entity_id = decimal entity_id;
        metadata = metadata;
      }
      ∷ db.audit;
}
