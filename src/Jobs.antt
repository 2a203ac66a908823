-- ===== src/Jobs.antt =====
-- core/jobs: durable jobs with leases. `Store` holds the tables, `Lease` the queries and updates that
-- the operations share; each operation of the repository is a module of its own.
pub mod Store
pub mod Lease
pub mod Backoff
pub mod Enqueue
pub mod Claim
pub mod Heartbeat
pub mod Finish
pub mod Failure
pub mod Cancel
pub mod Reclaim
pub mod Invariant
pub mod Safety
pub mod Recovery
pub mod Outbox
pub mod Listing
pub mod System
pub mod Stale
pub mod Repeat
pub mod Selection
pub mod Idle
pub mod Failed
pub mod Worker
