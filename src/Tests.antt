-- ===== src/Tests.antt =====
-- Runs of the development's theorems on concrete data.
mod Streams
mod Jobs
mod Tools
mod Selection
mod Monolith
mod Rollback
