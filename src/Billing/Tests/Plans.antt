-- ===== src/Billing/Tests/Plans.antt =====
-- Runs of billing/subscription.py, billing/entitlements.py, billing/usage.py and billing/plans.py.
use govahee.Prelude.{◌≡◌, refl}
use govahee.Exec.{ok}
use govahee.Billing.Models.{Subscription}
use govahee.Billing.Subscription.{apply_subscription_plan}
use govahee.Billing.Subscription.Period.{Applied, apply_subscription_plan-Applied}
use govahee.Billing.Entitlements.{get_entitlements, subscription_entitlements, limit_of}
use govahee.Billing.Tests.Fixtures.{academy, professional, open_payment, database, used}

apply_subscription_plan-Applied_example :
    (sub : Subscription) × ((apply_subscription_plan academy professional (database open_payment)).0
      ≡ ok sub)
    × Applied academy professional
        (database open_payment)
        (apply_subscription_plan academy professional (database open_payment)).1
        sub
apply_subscription_plan-Applied_example =
    apply_subscription_plan-Applied academy professional (database open_payment)

-- The used-up month of a plan with 2000 certificates: the limit is read from the subscription.
limit_of_professional : limit_of "certificates_per_month" (get_entitlements 7 used) ≡ 2000
unfolding limit_of get_entitlements subscription_entitlements
limit_of_professional = refl
