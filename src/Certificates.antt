-- ===== src/Certificates.antt =====
-- The certificates app: certificates/*.py.
pub mod Dates
pub mod Models
pub mod Numbering
pub mod Orders
pub mod Issue
pub mod Issued
pub mod Issuing
pub mod Revoke
pub mod Sequence
pub mod Status
pub mod Bulk
pub mod Batch
pub mod Counts
pub mod Cells
pub mod Templates
pub mod Uploads
pub mod BulkIssue
pub mod Public
pub mod Unique
pub mod Api
pub mod Variables
mod Tests
