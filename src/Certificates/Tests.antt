-- ===== src/Certificates/Tests.antt =====
-- Runs of the code of the certificates app, and its theorems at concrete inputs.
mod Fixtures
mod Issuing
mod Batches
mod Templates
mod Uploads
mod Pages
mod Office
