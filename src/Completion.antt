-- ===== src/Completion.antt =====
-- The publication of completed jobs (core/jobs/completion.py) and the stores that it writes to.
pub mod Artifacts
pub mod Reviews
pub mod Publisher
