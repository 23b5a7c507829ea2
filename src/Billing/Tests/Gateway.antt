-- ===== src/Billing/Tests/Gateway.antt =====
-- Runs of the readers of billing/payments/bitpay.py and of the amount test.
use govahee.Prelude.{ℕ, ◌+◌, ◌*◌, ◌≤◌, ◌<◌, ◌≡◌, refl, ◌↔◌, ◌⊎◌, true, false, some, arith}
use govahee.Prelude.Text.{strip, lower}
use govahee.Exec.{ok}
use govahee.Billing.Gateway.Decimal.{finite, whole, half_even, quantize, parse_decimal}
use govahee.Billing.Gateway.Json.{text}
use govahee.Billing.Gateway.BitPay.{
  amount_matches_expected, whole_amount_matches, status_is_success,
}
use govahee.Billing.Gateway.Amounts.{amount_matches_iff}

amount_matches_iff_example :
    (amount_matches_expected (whole 8900000) 890000 ≡ ok true)
    ↔ (◌≡◌ {A = ℕ} 8900000 890000 ⊎ ((10 * 890000 ≤ 8900000 + 5) × (8900000 < 10 * 890000 + 5)))
amount_matches_iff_example = amount_matches_iff 8900000 890000 (omega arith)

-- An amount that is neither the tomans nor the rials is refused.
wrong_amount : amount_matches_expected (whole 8899990) 890000 ≡ ok false
unfolding amount_matches_expected quantize half_even whole_amount_matches
wrong_amount = refl

reads_decimals : parse_decimal " 12.50" ≡ some (finite false 1250 2)
unfolding parse_decimal strip lower
reads_decimals = refl

text_status : status_is_success (text " Paid ") ≡ true
unfolding status_is_success strip lower
text_status = refl
