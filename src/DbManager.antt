-- ===== src/DbManager.antt =====
-- The db_manager service (db-manager/app): it stores what the worker publishes and keeps the status
-- of each job.
pub mod Payload
pub mod Persist
pub mod Consumer
pub mod Migration
