-- ===== src/Billing.antt =====
-- The billing app: billing/*.py.
pub mod Models
pub mod State
pub mod Subscription
pub mod Entitlements
pub mod Usage
pub mod Plans
pub mod Gateway
pub mod Payments
pub mod Tests
