-- ===== src/Billing/Payments/Charged.antt =====
-- When verifying a payment (billing/payments/service.py) changes what an organization is entitled
-- to: only behind an answer of the gateway that reports success and an amount that fits.
use govahee.Prelude.{String, ◌≡◌, refl, Bool, true, false, some, arith, ◌⊎◌, inl, inr, Bool-cases}
use govahee.Exec.{Exec, Error, Result, ok, err, continue, roll_back, raise_if, ◌>>◌}
use govahee.Billing.Models.{PaymentTransaction}
use govahee.Billing.State.{Db, payment_by_pk}
use govahee.Billing.Payments.Rows.{
  Write, save, log_payment, mark_payment_failed, already_applied, load_payment,
}
use govahee.Billing.Payments.Verify.{
  Verdict, finished, verified, judge, settle_locked, settle_row, settle, conclude, with_paid,
}
use govahee.Billing.Payments.Paid.{settle_locked-cases}

-- the rows that say what an organization is entitled to are as before
pub record Kept (db db' : Db) : Type 0 where
  pub subscriptions : db'.subscriptions ≡ db.subscriptions
  pub organizations : db'.organizations ≡ db.organizations
  pub plans : db'.plans ≡ db.plans

pub Kept-refl : (db : Db) → Kept db db
Kept-refl db = record { subscriptions = refl; organizations = refl; plans = refl }

pub mark_payment_failed-Kept :
    (p : PaymentTransaction) (message : String) (extra : Write) (db : Db)
    → Kept db (mark_payment_failed p message extra db).1
unfolding mark_payment_failed save log_payment
mark_payment_failed-Kept p message extra db = record {
  subscriptions = refl;
  organizations = refl;
  plans = refl;
}

-- A check of a payment ends with nothing granted, or hands `p` on and has changed nothing.
pub record Passed (P : PaymentTransaction → Type 0) (db : Db) (r : Result Verdict × Db)
    : Type 0 where
  pub object : PaymentTransaction
  pub ended : r ≡ (ok (verified object), db)
  pub facts : P object

pub data Stopped (db : Db) (r : Result Verdict × Db) : Type 0 where
  stopped : (q : PaymentTransaction) → r.0 ≡ ok (finished q) → Kept db r.1 → Stopped db r
  raised : (e : Error) → r.0 ≡ err e → Kept db r.1 → Stopped db r

pub judge-cases :
    (p : PaymentTransaction) (fits success : Bool) (m1 m2 : String) (w : Write) (db : Db)
    → Stopped db (judge p fits success m1 m2 w db)
      ⊎ Passed
          (λ q. (q ≡ p) × (fits ≡ true) × (success ≡ true))
          db
          (judge p fits success m1 m2 w db)
unfolding judge mark_payment_failed save log_payment
judge-cases p false success m1 m2 w db = inl (stopped _ refl (mark_payment_failed-Kept p m1 w db))
judge-cases p true false m1 m2 w db = inl (stopped _ refl (mark_payment_failed-Kept p m2 w db))
judge-cases p true true m1 m2 w db =
    inr (record { object = p; ended = refl; facts = (refl, refl, refl) })

-- a guard in front of a check
pub raise_if-cases :
    {P : PaymentTransaction → Type 0} (b : Bool) (e : Error) (k : Exec Db Verdict) (db : Db)
    → Stopped db (k db) ⊎ Passed P db (k db)
    → Stopped db ((raise_if b e >> k) db) ⊎ Passed P db ((raise_if b e >> k) db)
raise_if-cases true e k db rest = inl (raised e refl (Kept-refl db))
raise_if-cases false e k db rest = rest

-- The block under the lock grants nothing when it raises.
settle_locked-Kept :
    (persisted : Write) (p : PaymentTransaction) (db : Db)
    → Kept db (roll_back db (settle_locked persisted p db)).1
      ⊎ ((roll_back db (settle_locked persisted p db)).0 ≡ ok (with_paid db.now p))
settle_locked-Kept persisted p db = elim (settle_locked-cases persisted p db) [
  | inl (e, failed) ↦ inl (rw failed (Kept-refl db))
  | inr s ↦ inr (rw (s.result))
]

pub settle-Kept :
    (persisted : Write) (p row : PaymentTransaction) (db : Db)
    → payment_by_pk p.id db.payments ≡ some row
    → Kept db (settle persisted p db).1 ⊎ ((settle persisted p db).0 ≡ ok (with_paid db.now p))
unfolding settle load_payment settle_row
settle-Kept persisted p row db e = elim (Bool-cases (already_applied row)) [
  | inl applied ↦ inl (rw (e, applied) (Kept-refl db))
  | inr open_ ↦ rw (e, open_) (settle_locked-Kept persisted p db)
]

pub conclude-Stopped :
    (persisted : Write) (db : Db) (r : Result Verdict × Db)
    → Stopped db r
    → Kept db (continue r (conclude persisted)).1
unfolding conclude
conclude-Stopped persisted db (ok v, s) (stopped q e k) =
    let same : v ≡ finished q = ground arith in rw same k
conclude-Stopped persisted db (ok v, s) (raised e2 e k) = cc
conclude-Stopped persisted db (err e3, s) (stopped q e k) = cc
conclude-Stopped persisted db (err e3, s) (raised e2 e k) = k

-- a check that passed is followed by the block under the lock
pub conclude-Passed :
    {P : PaymentTransaction → Type 0} (persisted : Write) (row : PaymentTransaction) (db : Db)
    (r : Result Verdict × Db) (passed : Passed P db r)
    → payment_by_pk passed.object.id db.payments ≡ some row
    → Kept db (continue r (conclude persisted)).1
      ⊎ ((continue r (conclude persisted)).0 ≡ ok (with_paid db.now passed.object))
unfolding conclude
conclude-Passed persisted row db r passed e =
    rw (passed.ended) (settle-Kept persisted passed.object row db e)
