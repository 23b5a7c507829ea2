-- ===== src/Billing/Gateway/Amounts.antt =====
-- Which amounts the gateways' answers may name for a payment: `_amount_matches_expected` of
-- billing/payments/bitpay.py, and the comparison in rials for Zibal.
use govahee.Prelude.{ℕ, ◌+◌, ◌*◌, ◌^◌, ◌≤◌, ◌<◌, ◌≡◌, refl, ◌↔◌, ◌⊎◌, Bool, true, false, arith}
use govahee.Exec.{Result, ok}
use govahee.Billing.Gateway.Decimal.{finite, whole, half_even, quantize, max_coefficient}
use govahee.Billing.Gateway.BitPay.{whole_amount_matches, amount_matches_expected}

whole_amount_iff :
    (v expected : ℕ)
    → (whole_amount_matches (finite false v 0) expected ≡ true)
      ↔ ((v ≡ expected) ⊎ ((10 * expected ≤ v + 5) × (v < 10 * expected + 5)))
unfolding whole_amount_matches
whole_amount_iff v expected = (λ h. ground arith, λ h. ground arith)

half_even_whole : (v : ℕ) → half_even v (10 ^ 0) ≡ v
unfolding half_even
half_even_whole v = ground arith

quantize-whole : (v : ℕ) → v < max_coefficient → quantize (whole v) ≡ ok (whole v)
unfolding quantize
quantize-whole v small = ground (arith, half_even_whole v)

ok_true : (b : Bool) → (◌≡◌ {A = Result Bool} (ok b) (ok true)) ↔ (b ≡ true)
ok_true true = (λ h. refl, λ h. refl)
ok_true false = (λ h. ground arith, λ h. ground arith)

-- BitPay's amount, a whole number of at most 28 digits, is taken for a payment exactly when it is
-- the expected number of tomans, or that number in rials give or take a rounding: from five rials
-- less up to four more.
pub amount_matches_iff :
    (v expected : ℕ)
    → v < max_coefficient
    → (amount_matches_expected (whole v) expected ≡ ok true)
      ↔ ((v ≡ expected) ⊎ ((10 * expected ≤ v + 5) × (v < 10 * expected + 5)))
unfolding amount_matches_expected
amount_matches_iff v expected small =
    rw (quantize-whole v small, amount_matches_expected)
      (
        (λ h. (whole_amount_iff v expected).0 ((ok_true _).0 h)),
        (λ h. (ok_true _).1 ((whole_amount_iff v expected).1 h)),
      )

-- An answer that is accepted never names a smaller number than the one expected, whatever its sign
-- and its decimals are; so an amount in rials is told from one in tomans only by its size.
pub amount_matches_bound :
    (negative : Bool) (c scale expected : ℕ)
    → amount_matches_expected (finite negative c scale) expected ≡ ok true
    → expected ≤ half_even c (10 ^ scale)
unfolding amount_matches_expected quantize whole_amount_matches
amount_matches_bound negative c scale expected h = ground arith
