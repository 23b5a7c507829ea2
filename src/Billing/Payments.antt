-- ===== src/Billing/Payments.antt =====
-- billing/payments/service.py and billing/payments/settings.py, and the callback views of
-- billing/views.py. The proofs are in the modules that stand beside the parts.
pub mod Settings
pub mod Rows
pub mod Start
pub mod Verify
pub mod Callbacks
pub mod Begin
pub mod Frame
pub mod Opened
pub mod Paid
pub mod Once
pub mod Charged
pub mod Replay
pub mod BitPayCharged
pub mod ZibalCharged
