-- ===== src/Attachments.antt =====
-- The attachments app: attachments/**/*.py.
pub mod Chunks
pub mod Storage
pub mod Files
mod Tests
