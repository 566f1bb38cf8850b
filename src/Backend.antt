-- ===== src/Backend.antt =====
-- The backend service (backend/app): it serves the catalogue of feeds and the stored sources, and
-- creates the scrape jobs that the worker runs.
pub mod Host
pub mod Jobs
pub mod Payloads
pub mod Reads
pub mod Toggles
pub mod JobLock
pub mod Catalog
pub mod Partitions
pub mod SourceReads
pub mod Sync
pub mod Companies
pub mod CatalogSync
pub mod Repository
pub mod WorkerToken
