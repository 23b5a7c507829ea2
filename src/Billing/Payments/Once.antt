-- ===== src/Billing/Payments/Once.antt =====
-- The block of billing/payments/service.py under `transaction.atomic()` with its row lock: it
-- marks the payment as paid, and it is the only place that applies a plan.
use govahee.Prelude.{
  ℕ, ◌≡◌, refl, sym, ◌∙◌, ap, true, some, arith, Bool-cases, Option-cases, inl, inr,
}
use govahee.Exec.{ok, roll_back, roll_back-ok}
use govahee.Billing.Models.{PaymentTransaction}
use govahee.Billing.State.{Db, payment_by_pk}
use govahee.Billing.Payments.Rows.{Write, already_applied, load_payment}
use govahee.Billing.Payments.Verify.{settle_locked, settle_row, settle, write_paid}
use govahee.Billing.Payments.Paid.{KeepsPk, settle_locked-cases, settled, settled_row}

-- a payment that is under the lock and already applied is left alone
settle-applied :
    (persisted : Write) (p row : PaymentTransaction) (db : Db)
    → payment_by_pk p.id db.payments ≡ some row
    → already_applied row ≡ true
    → settle persisted p db ≡ (ok row, db)
unfolding settle load_payment settle_row
settle-applied persisted p row db e applied = rw (e, applied)

settled-applied :
    (persisted : Write) (p : PaymentTransaction) (db : Db) (row : PaymentTransaction)
    → already_applied (settled persisted p db row) ≡ true
unfolding already_applied write_paid
settled-applied persisted p db row = refl

-- What the block leaves behind when it returns: an applied payment.
pub record IsApplied (pk : ℕ) (db : Db) : Type 0 where
  pub row : PaymentTransaction
  pub stored : payment_by_pk pk db.payments ≡ some row
  pub applied : already_applied row ≡ true

settle_locked-IsApplied :
    (persisted : Write) (p row q : PaymentTransaction) (db db' : Db)
    → KeepsPk persisted
    → payment_by_pk p.id db.payments ≡ some row
    → roll_back db (settle_locked persisted p db) ≡ (ok q, db')
    → IsApplied p.id db'
settle_locked-IsApplied persisted p row q db db' keeps e h =
    let returned = roll_back-ok db (settle_locked persisted p db) q db' h in
    elim (settle_locked-cases persisted p db) [
      | inl (e2, raised) ↦ absurd (ground arith)
      | inr s ↦ record {
        row = settled persisted p db row;
        stored =
            ap (λ r. payment_by_pk p.id r.1.payments) (sym returned)
            ∙ settled_row persisted p db row keeps e s;
        applied = settled-applied persisted p db row;
      }
    ]

settle-IsApplied :
    (persisted : Write) (p q : PaymentTransaction) (db db' : Db)
    → KeepsPk persisted
    → settle persisted p db ≡ (ok q, db')
    → IsApplied p.id db'
unfolding settle load_payment settle_row
settle-IsApplied persisted p q db db' keeps h =
    elim (Option-cases (payment_by_pk p.id db.payments)) [
      | inl missing ↦ absurd (ground arith)
      | inr (locked, e) ↦ elim (Bool-cases (already_applied locked)) [
        | inl applied ↦
            (let same : db ≡ db' = ground arith in
              record { row = locked; stored = rw (← same) e; applied = applied })
        | inr open_ ↦
            settle_locked-IsApplied persisted p locked q db db' keeps e (rw (e, open_) at h)
      ]
    ]

-- Once the block under the lock has returned for a payment, the stored row is applied, and as long
-- as a row of the payment is applied, whatever else other requests have written meanwhile, another
-- run of the block for the payment, from whatever object a request still holds, gives the stored
-- row back and changes nothing: no run applies the plan of an applied payment again, however the
-- requests overlap before the lock.
pub settle_once :
    (persisted later : Write) (p stale q now_row : PaymentTransaction) (db db' now_db : Db)
    → KeepsPk persisted
    → stale.id ≡ p.id
    → settle persisted p db ≡ (ok q, db')
    → payment_by_pk p.id now_db.payments ≡ some now_row
    → already_applied now_row ≡ true
    → ((row : PaymentTransaction) × (payment_by_pk p.id db'.payments ≡ some row)
        × (already_applied row ≡ true)
        × (settle later stale db' ≡ (ok row, db')))
      × (settle later stale now_db ≡ (ok now_row, now_db))
settle_once persisted later p stale q now_row db db' now_db keeps same h held applied =
    let done = settle-IsApplied persisted p q db db' keeps h in
    let again = λ (d : Db). ap (λ k. payment_by_pk k d.payments) same in
    (
      (
        done.row,
        done.stored,
        done.applied,
        settle-applied later stale done.row db' (again db' ∙ done.stored) done.applied,
      ),
      settle-applied later stale now_row now_db (again now_db ∙ held) applied,
    )
