-- ===== src/Accounts.antt =====
-- The accounts app: accounts/*.py.
pub mod Users
pub mod Login
pub mod Register
mod Tests
