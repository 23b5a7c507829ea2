-- ===== src/Billing/Payments/BitPayCharged.antt =====
-- When verifying a BitPay payment (billing/payments/service.py) changes what an organization is
-- entitled to.
use govahee.Prelude.{
  ℕ, String, ◌≡◌, refl, sym, ap, ◌∙◌, Bool, true, false, not, some, ◌⊎◌, inl, inr, Bool-cases,
  Option-cases, truthy, or_else,
}
use govahee.Prelude.Keyed.{find-key}
use govahee.Exec.{Result, ok, err, continue}
use govahee.Billing.Models.{PaymentTransaction}
use govahee.Billing.State.{Db, payment_by_pk}
use govahee.Billing.Gateway.BitPay.{GatewayResult, done, gateway_error, BitPayVerifyResult}
use govahee.Billing.Payments.Settings.{GatewaySettings}
use govahee.Billing.Payments.Rows.{
  save, log_payment, mark_payment_failed, already_applied, load_payment,
}
use govahee.Billing.Payments.Verify.{
  Verdict, bitpay_amount_fits, bitpay_judge, bitpay_answered, bitpay_check_row, bitpay_check,
  conclude, bitpay_persisted, with_paid, write_transaction_id, verify_and_apply_bitpay_payment,
}
use govahee.Billing.Payments.Charged.{
  Kept, Kept-refl, Passed, Stopped, stopped, raised, mark_payment_failed-Kept, judge-cases,
  raise_if-cases, conclude-Stopped, conclude-Passed,
}

module _ (cfg : GatewaySettings) (gateway : String → String → GatewayResult BitPayVerifyResult)
    (trans_id id_get : String) where
  -- What BitPay has said of the payment in the row `p`.
  pub record BitPayConfirmed (p q : PaymentTransaction) : Type 0 where
    pub unapplied : already_applied p ≡ false
    pub result : BitPayVerifyResult
    pub answered : gateway trans_id (or_else id_get p.gateway_reference) ≡ done result
    pub success : result.success ≡ true
    pub fits : bitpay_amount_fits result.amount p.amount ≡ ok true
    pub same_pk : q.id ≡ p.id

  bitpay_judge-cases :
      (row p : PaymentTransaction) (result : BitPayVerifyResult) (fits : Result Bool) (db : Db)
      → gateway trans_id (or_else id_get row.gateway_reference) ≡ done result
      → already_applied row ≡ false
      → p.id ≡ row.id
      → bitpay_amount_fits result.amount row.amount ≡ fits
      → Stopped db (bitpay_judge p result fits db)
        ⊎ Passed (BitPayConfirmed row) db (bitpay_judge p result fits db)
  unfolding bitpay_judge
  bitpay_judge-cases row p result (err e) db answered open_ same fits =
      inl (raised e refl (Kept-refl db))
  bitpay_judge-cases row p result (ok b) db answered open_ same fits =
      elim (judge-cases p b result.success _ _ bitpay_persisted db) [
        | inl s ↦ inl s
        | inr passed ↦ inr (record {
          object = passed.object;
          ended = passed.ended;
          facts = record {
            unapplied = open_;
            result = result;
            answered = answered;
            success = passed.facts.2;
            fits = fits ∙ ap ok (passed.facts.1);
            same_pk = ap (λ (q : PaymentTransaction). q.id) (passed.facts.0) ∙ same;
          };
        })
      ]

  bitpay_answered-cases :
      (row p : PaymentTransaction) (a : GatewayResult BitPayVerifyResult) (db : Db)
      → gateway trans_id (or_else id_get row.gateway_reference) ≡ a
      → already_applied row ≡ false
      → p.id ≡ row.id
      → p.amount ≡ row.amount
      → Stopped db (bitpay_answered p a db)
        ⊎ Passed (BitPayConfirmed row) db (bitpay_answered p a db)
  unfolding bitpay_answered mark_payment_failed save log_payment
  bitpay_answered-cases row p (gateway_error message) db e open_ same amount =
      inl (raised _ refl (mark_payment_failed-Kept p message write_transaction_id db))
  bitpay_answered-cases row p (done result) db e open_ same amount =
      bitpay_judge-cases row
        (record p { verify_response = result.raw; card_number = result.card_number }) result
        (bitpay_amount_fits result.amount p.amount) db e open_ same
        (ap (bitpay_amount_fits result.amount) (sym amount))

  bitpay_check_row-cases :
      (row : PaymentTransaction) (db : Db)
      → Stopped db (bitpay_check_row cfg gateway trans_id id_get row db)
        ⊎ Passed (BitPayConfirmed row) db (bitpay_check_row cfg gateway trans_id id_get row db)
  unfolding bitpay_check_row
  bitpay_check_row-cases row db = elim (Bool-cases (already_applied row)) [
    | inl applied ↦ rw applied (inl (stopped row refl (Kept-refl db)))
    | inr open_ ↦ rw open_ (
        raise_if-cases (not (truthy cfg.bitpay_api_key)) _ _ db (
          raise_if-cases (not (truthy trans_id)) _ _ db (
            raise_if-cases (not (truthy (or_else id_get row.gateway_reference))) _ _ db (
              bitpay_answered-cases row (record row { gateway_transaction_id = trans_id })
                (gateway trans_id (or_else id_get row.gateway_reference)) db refl open_ refl
                refl))))
  ]

  -- A verification that has granted something: the row that it read, and the confirmation of the
  -- object that it returned.
  pub record BitPayCharged (pk : ℕ) (db : Db) (r : Result PaymentTransaction) : Type 0 where
    pub row : PaymentTransaction
    pub object : PaymentTransaction
    pub stored : payment_by_pk pk db.payments ≡ some row
    pub confirmed : BitPayConfirmed row object
    pub returned : r ≡ ok (with_paid db.now object)

  loaded :
      (pk : ℕ) (row : PaymentTransaction) (db : Db) (r : Result Verdict × Db)
      → payment_by_pk pk db.payments ≡ some row
      → Stopped db r ⊎ Passed (BitPayConfirmed row) db r
      → Kept db (continue r (conclude bitpay_persisted)).1
        ⊎ BitPayCharged pk db (continue r (conclude bitpay_persisted)).0
  loaded pk row db r e (inl s) = inl (conclude-Stopped bitpay_persisted db r s)
  loaded pk row db r e (inr passed) =
      let pk_of_row = find-key (λ (p : PaymentTransaction). p.id) pk db.payments row e in
      elim (conclude-Passed bitpay_persisted row db r passed
        (ap (λ k. payment_by_pk k db.payments) (passed.facts.same_pk ∙ pk_of_row) ∙ e)) [
          | inl kept ↦ inl kept
          | inr returned ↦ inr (record {
            row = row;
            object = passed.object;
            stored = e;
            confirmed = passed.facts;
            returned = returned;
          })
        ]

  -- Verifying a BitPay payment leaves the subscriptions, the organizations and the plans as they
  -- were, or: the payment was not applied yet, BitPay answered for its transaction and reference
  -- with success and with an amount that fits or no amount, and the payment returned is paid.
  pub bitpay_charged :
      (pk : ℕ) (db : Db)
      → Kept db (verify_and_apply_bitpay_payment cfg gateway pk trans_id id_get db).1
        ⊎ BitPayCharged pk db (verify_and_apply_bitpay_payment cfg gateway pk trans_id id_get db).0
  unfolding verify_and_apply_bitpay_payment bitpay_check load_payment
  bitpay_charged pk db = elim (Option-cases (payment_by_pk pk db.payments)) [
    | inl missing ↦ inl (rw missing (Kept-refl db))
    | inr (row, e) ↦ rw e (
        loaded pk row db (bitpay_check_row cfg gateway trans_id id_get row db) e
          (bitpay_check_row-cases row db))
  ]
