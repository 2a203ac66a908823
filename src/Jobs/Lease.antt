-- ===== src/Jobs/Lease.antt =====
-- The active attempt of a job, and the insertion of an attempt under the constraints of its table
-- (core/jobs/repository.py).
pub mod Live
use galaxz.Prelude.{
  ℕ, Bool, not, ◌&&◌, ◌||◌, Option, none, some, ◌∷◌, [], ◌++◌, ◌==◌, leb, is_none, is_some, Result,
  ok, require, guard, integrity_error, lease_conflict, ◌>>=◌, ◌>>◌, if◌then◌else◌,
}
use galaxz.Prelude.Table.{exists}
use galaxz.Contracts.Job.{JobStatus, status_eq, ExecutionAttempt}
use galaxz.Jobs.Store.{JobRow, Db, find_job, find_attempt}

-- the attempt of the lease, if it is open
open_with : ℕ → Option ExecutionAttempt → Option ExecutionAttempt
open_with lease_token none = none
open_with lease_token (some a) =
    if a.lease_token == lease_token && is_none a.ended_at then some a else none

attempt_of : Option ℕ → Db → Option ExecutionAttempt
attempt_of none db = none
attempt_of (some id) db = find_attempt id db

active_of : ℕ → Option JobRow → Db → Option ExecutionAttempt
active_of lease_token none db = none
active_of lease_token (some r) db =
    if status_eq r.status JobStatus.running
    then open_with lease_token (attempt_of r.active_attempt_id db)
    else none

-- `_active_attempt`
unfoldable pub active_attempt : ℕ → ℕ → Db → Option ExecutionAttempt
unfolding open_with attempt_of active_of
active_attempt job_id lease_token db = active_of lease_token (find_job job_id db) db

-- `attempt is None or attempt.lease_expires_at <= now` raises
unfoldable pub live_attempt : ℕ → ℕ → ℕ → Db → Result ExecutionAttempt
live_attempt job_id lease_token now db = do
  a ← require (active_attempt job_id lease_token db) lease_conflict
  guard (not (leb a.lease_expires_at now)) lease_conflict
  ok a

-- a row of `execution_attempts` that a UNIQUE constraint keeps `a` from joining
unfoldable pub clashes : ExecutionAttempt → ExecutionAttempt → Bool
clashes a b =
    b.lease_token == a.lease_token || (b.job_id == a.job_id && b.attempt_number == a.attempt_number)

-- `_insert_attempt`
unfoldable pub insert_attempt : ExecutionAttempt → Db → Result Db
insert_attempt a db = do
  guard (is_none (find_attempt a.attempt_id db)) integrity_error
  guard (not (exists (clashes a) db.attempts)) integrity_error
  guard (is_some (find_job a.job_id db)) integrity_error
  ok (record db { attempts = db.attempts ++ a ∷ [] })
