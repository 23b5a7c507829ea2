-- ===== src/Billing/Gateway.antt =====
-- billing/payments/bitpay.py and billing/payments/zibal.py: what the code makes of the answers of
-- the two payment gateways. The HTTP exchange itself is an argument.
pub mod Decimal
pub mod Json
pub mod BitPay
pub mod Zibal
pub mod Amounts
