-- ===== src/Billing/Payments/ZibalCharged.antt =====
-- When verifying a Zibal payment (billing/payments/service.py) changes what an organization is
-- entitled to.
use govahee.Prelude.{
  ℕ, String, ◌≡◌, refl, ap, ◌∙◌, true, false, not, some, ◌⊎◌, inl, inr, Bool-cases, Option-cases,
  truthy, or_else,
}
use govahee.Prelude.Keyed.{find-key}
use govahee.Exec.{Result, ok, err, continue}
use govahee.Billing.Models.{PaymentTransaction}
use govahee.Billing.State.{Db, payment_by_pk}
use govahee.Billing.Gateway.BitPay.{GatewayResult, done, gateway_error}
use govahee.Billing.Gateway.Zibal.{ZibalVerifyResult}
use govahee.Billing.Payments.Settings.{GatewaySettings}
use govahee.Billing.Payments.Rows.{
  save, log_payment, mark_payment_failed, already_applied, load_payment,
}
use govahee.Billing.Payments.Verify.{
  Verdict, zibal_amount_fits, zibal_answered, zibal_check_row, zibal_check, conclude,
  zibal_persisted, with_paid, write_nothing, verify_and_apply_zibal_payment,
}
use govahee.Billing.Payments.Charged.{
  Kept, Kept-refl, Passed, Stopped, stopped, raised, mark_payment_failed-Kept, judge-cases,
  raise_if-cases, conclude-Stopped, conclude-Passed,
}

module _ (cfg : GatewaySettings) (gateway : String → Result (GatewayResult ZibalVerifyResult))
    (track_id : String) where
  -- What Zibal has said of the payment in the row `p`.
  pub record ZibalConfirmed (p q : PaymentTransaction) : Type 0 where
    pub unapplied : already_applied p ≡ false
    pub result : ZibalVerifyResult
    pub answered : gateway (or_else track_id p.gateway_reference) ≡ ok (done result)
    pub success : result.success ≡ true
    pub fits : zibal_amount_fits result.amount_rials p.amount ≡ true
    pub same_pk : q.id ≡ p.id

  zibal_answered-cases :
      (row : PaymentTransaction) (a : Result (GatewayResult ZibalVerifyResult)) (db : Db)
      → gateway (or_else track_id row.gateway_reference) ≡ a
      → already_applied row ≡ false
      → Stopped db (zibal_answered row (or_else track_id row.gateway_reference) a db)
        ⊎ Passed
            (ZibalConfirmed row)
            db
            (zibal_answered row (or_else track_id row.gateway_reference) a db)
  unfolding zibal_answered mark_payment_failed save log_payment
  zibal_answered-cases row (err e) db answered open_ = inl (raised e refl (Kept-refl db))
  zibal_answered-cases row (ok (gateway_error message)) db answered open_ =
      inl (raised _ refl (mark_payment_failed-Kept row message write_nothing db))
  zibal_answered-cases row (ok (done result)) db answered open_ =
      elim (judge-cases _ (zibal_amount_fits result.amount_rials row.amount) result.success _ _
        zibal_persisted db) [
          | inl s ↦ inl s
          | inr passed ↦ inr (record {
            object = passed.object;
            ended = passed.ended;
            facts = record {
              unapplied = open_;
              result = result;
              answered = answered;
              success = passed.facts.2;
              fits = passed.facts.1;
              same_pk = ap (λ (q : PaymentTransaction). q.id) (passed.facts.0);
            };
          })
        ]

  zibal_check_row-cases :
      (row : PaymentTransaction) (db : Db)
      → Stopped db (zibal_check_row cfg gateway track_id row db)
        ⊎ Passed (ZibalConfirmed row) db (zibal_check_row cfg gateway track_id row db)
  unfolding zibal_check_row
  zibal_check_row-cases row db = elim (Bool-cases (already_applied row)) [
    | inl applied ↦ rw applied (inl (stopped row refl (Kept-refl db)))
    | inr open_ ↦ rw open_ (
        raise_if-cases (not (truthy cfg.zibal_merchant_id)) _ _ db (
          raise_if-cases (not (truthy (or_else track_id row.gateway_reference))) _ _ db (
            zibal_answered-cases row (gateway (or_else track_id row.gateway_reference)) db refl
              open_)))
  ]

  -- A verification that has granted something: the row that it read, and the confirmation of the
  -- object that it returned.
  pub record ZibalCharged (pk : ℕ) (db : Db) (r : Result PaymentTransaction) : Type 0 where
    pub row : PaymentTransaction
    pub object : PaymentTransaction
    pub stored : payment_by_pk pk db.payments ≡ some row
    pub confirmed : ZibalConfirmed row object
    pub returned : r ≡ ok (with_paid db.now object)

  loaded :
      (pk : ℕ) (row : PaymentTransaction) (db : Db) (r : Result Verdict × Db)
      → payment_by_pk pk db.payments ≡ some row
      → Stopped db r ⊎ Passed (ZibalConfirmed row) db r
      → Kept db (continue r (conclude zibal_persisted)).1
        ⊎ ZibalCharged pk db (continue r (conclude zibal_persisted)).0
  loaded pk row db r e (inl s) = inl (conclude-Stopped zibal_persisted db r s)
  loaded pk row db r e (inr passed) =
      let pk_of_row = find-key (λ (p : PaymentTransaction). p.id) pk db.payments row e in
      elim (conclude-Passed zibal_persisted row db r passed
        (ap (λ k. payment_by_pk k db.payments) (passed.facts.same_pk ∙ pk_of_row) ∙ e)) [
          | inl kept ↦ inl kept
          | inr returned ↦ inr (record {
            row = row;
            object = passed.object;
            stored = e;
            confirmed = passed.facts;
            returned = returned;
          })
        ]

  -- Verifying a Zibal payment leaves the subscriptions, the organizations and the plans as they
  -- were, or: the payment was not applied yet, Zibal answered for its track id
  -- with success and with an amount that fits or no amount, and the payment returned is paid.
  pub zibal_charged :
      (pk : ℕ) (db : Db)
      → Kept db (verify_and_apply_zibal_payment cfg gateway pk track_id db).1
        ⊎ ZibalCharged pk db (verify_and_apply_zibal_payment cfg gateway pk track_id db).0
  unfolding verify_and_apply_zibal_payment zibal_check load_payment
  zibal_charged pk db = elim (Option-cases (payment_by_pk pk db.payments)) [
    | inl missing ↦ inl (rw missing (Kept-refl db))
    | inr (row, e) ↦ rw e (
        loaded pk row db (zibal_check_row cfg gateway track_id row db) e
          (zibal_check_row-cases row db))
  ]
