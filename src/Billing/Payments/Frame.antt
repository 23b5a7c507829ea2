-- ===== src/Billing/Payments/Frame.antt =====
-- What starting a payment (billing/payments/service.py, billing/views.py) leaves alone.
use govahee.Prelude.{
  ℕ, ◌<◌, String, ◌≡◌, refl, ◌∙◌, Bool, true, false, List, [], ◌∷◌, some, arith, map,
}
use govahee.Prelude.Keyed.{find-update_ne}
use govahee.Exec.{Exec, Result, ok, err, Error, payment, pure, raise, raise_if, continue, ◌>>=◌}
use govahee.Prelude.Text.{prefix}
use govahee.Organizations.Models.{Organization}
use govahee.Billing.Models.{PaymentTransaction, PaymentStatus, Plan, Gateway, Payload}
use govahee.Billing.Gateway.BitPay.{GatewayResult, done, gateway_error, BitPayRequestResult}
use govahee.Billing.Gateway.Zibal.{ZibalRequestResult}
use govahee.Billing.Payments.Start.{
  new_payment, create_payment, save_request, start_failed, start_done, bitpay_answered,
  zibal_answered,
}
use govahee.Billing.State.{Db, next_pk, payment_by_pk}
use govahee.Billing.Payments.Rows.{Write, write_failure, save, log_payment}

-- the second database has the tables of the first, but for the payment `pk` and the audit log
pub record SameBut (pk : ℕ) (db db' : Db) : Type 0 where
  pub organizations : db'.organizations ≡ db.organizations
  pub plans : db'.plans ≡ db.plans
  pub subscriptions : db'.subscriptions ≡ db.subscriptions
  pub usage : db'.usage ≡ db.usage
  pub payments : (j : ℕ) → ¬ (j ≡ pk) → payment_by_pk j db'.payments ≡ payment_by_pk j db.payments

-- every run of this code changes the payment `pk` at most
pub Frames : {A : Type 0} → ℕ → Exec Db A → Type 0
Frames pk m = (db : Db) → SameBut pk db (m db).1

pub SameBut-refl : (pk : ℕ) (db : Db) → SameBut pk db db
SameBut-refl pk db = record {
  organizations = refl;
  plans = refl;
  subscriptions = refl;
  usage = refl;
  payments = λ j ne. refl;
}

SameBut-trans : (pk : ℕ) (a b c : Db) → SameBut pk a b → SameBut pk b c → SameBut pk a c
SameBut-trans pk a b c h k = record {
  organizations = k.organizations ∙ h.organizations;
  plans = k.plans ∙ h.plans;
  subscriptions = k.subscriptions ∙ h.subscriptions;
  usage = k.usage ∙ h.usage;
  payments = λ j ne. k.payments j ne ∙ h.payments j ne;
}

pub Frames-pure : {A : Type 0} (pk : ℕ) (a : A) → Frames pk (pure {S = Db} a)
unfolding Frames
Frames-pure pk a db = SameBut-refl pk db

pub Frames-raise : (A : Type 0) (pk : ℕ) (e : Error) → Frames pk (raise {S = Db} {A = A} e)
unfolding Frames
Frames-raise A pk e db = SameBut-refl pk db

Frames-raise_if : (pk : ℕ) (b : Bool) (e : Error) → Frames pk (raise_if {S = Db} b e)
unfolding Frames
Frames-raise_if pk true e db = SameBut-refl pk db
Frames-raise_if pk false e db = SameBut-refl pk db

module _ (pk : ℕ) {A B : Type 0} where
  continue-SameBut :
      (db : Db) (r : Result A × Db) (k : A → Exec Db B)
      → SameBut pk db r.1
      → ((a : A) → Frames pk (k a))
      → SameBut pk db (continue r k).1
  unfolding Frames
  continue-SameBut db (ok a, s) k h f = SameBut-trans pk db s (k a s).1 h (f a s)
  continue-SameBut db (err e, s) k h f = h

  pub Frames-bind :
      (m : Exec Db A) (k : A → Exec Db B)
      → Frames pk m
      → ((a : A) → Frames pk (k a))
      → Frames pk (m >>= k)
  unfolding Frames
  Frames-bind m k h f db = continue-SameBut db (m db) k (h db) f

Frames-save :
    (write : Write) (p : PaymentTransaction)
    → ((q row : PaymentTransaction) → (write q row).id ≡ row.id)
    → Frames p.id (save write p)
unfolding Frames save
Frames-save write p keeps db = record {
  organizations = refl;
  plans = refl;
  subscriptions = refl;
  usage = refl;
  payments = λ j ne. find-update_ne (λ q. q.id) (write p) (keeps p) p.id j db.payments ne;
}

Frames-log : (pk : ℕ) (p : PaymentTransaction) (action : String) → Frames pk (log_payment p action)
unfolding Frames log_payment
Frames-log pk p action db = record {
  organizations = refl;
  plans = refl;
  subscriptions = refl;
  usage = refl;
  payments = λ j ne. refl;
}

module _ (p : PaymentTransaction) where
  start_failed-Frames : (message : String) → Frames p.id (start_failed p message)
  unfolding start_failed
  start_failed-Frames message =
      let q = record p { status = PaymentStatus.failed; error_message = prefix 500 message } in
      Frames-bind q.id (save write_failure q) _ (Frames-save write_failure q (λ o row. refl)) (λ u.
        Frames-bind q.id (log_payment q "payment.failed") _ (Frames-log q.id q "payment.failed")
          (λ v. Frames-raise _ q.id (payment message)))

  start_done-Frames :
      (reference : String) (raw : Payload) (url : String)
      → Frames p.id (start_done p reference raw url)
  unfolding start_done
  start_done-Frames reference raw url =
      let q = record p { gateway_reference = reference; request_response = raw } in
      Frames-bind q.id (save _ q) _ (Frames-save _ q (λ o row. refl)) (λ u.
        Frames-bind q.id (log_payment q "payment.start") _ (Frames-log q.id q "payment.start")
          (λ v. Frames-pure q.id (q, url)))

  pub bitpay_answered-Frames :
      (answer : GatewayResult BitPayRequestResult) → Frames p.id (bitpay_answered p answer)
  unfolding bitpay_answered
  bitpay_answered-Frames (gateway_error message) = start_failed-Frames message
  bitpay_answered-Frames (done r) = start_done-Frames r.id_get r.raw r.redirect_url

  pub zibal_answered-Frames :
      (answer : Result (GatewayResult ZibalRequestResult)) → Frames p.id (zibal_answered p answer)
  unfolding zibal_answered
  zibal_answered-Frames (err e) = Frames-raise _ p.id e
  zibal_answered-Frames (ok (gateway_error message)) = start_failed-Frames message
  zibal_answered-Frames (ok (done r)) = start_done-Frames r.track_id r.raw r.redirect_url

  pub save_request-Frames : Frames p.id (save_request p)
  unfolding save_request
  save_request-Frames = Frames-save _ p (λ o row. refl)

-- `next_pk` is above every key in use
pub find-next_pk :
    (j : ℕ) (rows : List PaymentTransaction) (row : PaymentTransaction)
    → payment_by_pk j rows ≡ some row
    → j < next_pk (map (λ p. p.id) rows)
find-next_pk j [] row h = ground arith
find-next_pk j (p ∷ rows) row h = ground (arith, find-next_pk j rows row)

-- the key of the payment that a start in this database creates
unfoldable pub fresh : Db → ℕ
fresh db = next_pk (map (λ p. p.id) db.payments)

-- creating a payment, and then code that changes it only
pub create_payment-SameBut :
    {A : Type 0} (g : Gateway) (o : Organization) (plan : Plan) (amount : ℕ) (db : Db)
    (k : PaymentTransaction → Exec Db A)
    → ((p : PaymentTransaction) → Frames p.id (k p))
    → SameBut (fresh db) db ((create_payment g o plan amount >>= k) db).1
unfolding create_payment fresh Frames new_payment
create_payment-SameBut g o plan amount db k f =
    let p = new_payment g o plan amount (fresh db) in
    let db1 = record db { payments = p ∷ db.payments } in
    SameBut-trans (fresh db) db db1 (k p db1).1
      (record {
        organizations = refl;
        plans = refl;
        subscriptions = refl;
        usage = refl;
        payments = λ j ne. ground (arith, ne);
      })
      (f p db1)
