-- ===== src/Jobs/Safety.antt =====
-- On the operations of core/jobs/repository.py together, in any sequence: the invariant.
pub mod Post
pub mod Heartbeat
pub mod Finish
pub mod Failure
pub mod Cancel
pub mod Reclaim
pub mod Enqueue
pub mod Claim
