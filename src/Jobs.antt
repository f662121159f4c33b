-- ===== src/Jobs.antt =====
-- src/costanza/jobs: the scheduled jobs.
pub mod Reconcile
pub mod Digest
pub mod Identities
