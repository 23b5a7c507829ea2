-- ===== src/Billing/Tests.antt =====
-- Runs of the billing app's code, and its theorems at concrete inputs.
pub mod Fixtures
mod Gateway
mod Plans
mod Payments
