-- ===== src/Jobs/Invariant.antt =====
-- The invariant of the job tables, and how the shapes of update that the operations make keep it:
-- a job is released, started, extended or withdrawn, and a new job is added.
pub mod Consistent
pub mod Release
pub mod Idle
pub mod Start
pub mod Extend
pub mod Advance
