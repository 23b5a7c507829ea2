-- ===== src/Organizations.antt =====
-- The organizations app: organizations/*.py.
pub mod Models
pub mod Webhooks
pub mod Members
pub mod Slugs
pub mod Provision
pub mod Invitations
mod Tests
