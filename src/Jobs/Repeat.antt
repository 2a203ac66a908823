-- ===== src/Jobs/Repeat.antt =====
-- Calls of core/jobs/repository.py that are sent twice.
pub mod Stored
pub mod Complete
pub mod Enqueue
