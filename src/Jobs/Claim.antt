-- ===== src/Jobs/Claim.antt =====
-- `claim` of core/jobs/repository.py. The new identifiers are arguments.
pub mod Order
use galaxz.Prelude.{
  ℕ, ◌+◌, String, Bool, not, ◌&&◌, ◌||◌, Option, none, some, List, [], ◌∷◌, ◌==◌, ltb, leb, is_some,
  length, Result, ok, err, value_error, ◌>>=◌, ◌>>◌, if◌then◌else◌,
}
use galaxz.Prelude.Int.{lt_ℤ}
use galaxz.Prelude.Table.{select}
use galaxz.Contracts.Job.{
  JobStatus, status_eq, validate_job_transition, Job, ExecutionAttempt, validate_attempt,
}
use galaxz.Jobs.Store.{
  JobRow, Reason, Db, find_key, update_job, record_transition, get_existing_job, transaction,
}
use galaxz.Jobs.Lease.{insert_attempt}

-- the WHERE of the query, and its JOIN
unfoldable pub claimable : ℕ → Db → JobRow → Bool
claimable now db r =
    status_eq r.status JobStatus.queued
    && leb r.available_at now
    && ltb r.attempt_count r.retry_policy.max_attempts
    && is_some (find_key r.job_id db)

-- `ORDER BY priority DESC, created_at, job_id`: `r` comes before `s`
unfoldable pub precedes : JobRow → JobRow → Bool
precedes r s =
    lt_ℤ s.priority r.priority
    || not (lt_ℤ r.priority s.priority)
      && (ltb r.created_at s.created_at || r.created_at == s.created_at && ltb r.job_id s.job_id)

unfoldable pub better : JobRow → Option JobRow → JobRow
better r none = r
better r (some s) = if precedes s r then s else r

-- `LIMIT 1`
unfoldable pub first_row : List JobRow → Option JobRow
unfolding better
first_row [] = none
first_row (r ∷ rs) = some (better r (first_row rs))

unfoldable pub next_job : ℕ → Db → Option JobRow
next_job now db = first_row (select (claimable now db) db.jobs)

-- the row after `UPDATE jobs … WHERE status = 'queued'`
unfoldable pub start_row : ℕ → ℕ → JobRow → JobRow
start_row attempt_id now r =
    if status_eq r.status JobStatus.queued
    then record r {
      status = JobStatus.running;
      attempt_count = r.attempt_count + 1;
      active_attempt_id = some attempt_id;
      updated_at = now;
    }
    else r

-- the rows that this UPDATE changes, as `rowcount` has it
unfoldable pub updated_rows : ℕ → Db → ℕ
updated_rows id db =
    length (select (λ (r : JobRow). r.job_id == id && status_eq r.status JobStatus.queued) db.jobs)

pub record Ids : Type 0 where
  pub attempt_id : ℕ
  pub lease_token : ℕ

unfoldable pub new_attempt : JobRow → String → ℕ → ℕ → Ids → ExecutionAttempt
new_attempt r worker_id lease_seconds now ids = record {
  attempt_id = ids.attempt_id;
  job_id = r.job_id;
  attempt_number = r.attempt_count + 1;
  worker_id = worker_id;
  input_ref = r.task_id;
  lease_token = ids.lease_token;
  lease_expires_at = now + lease_seconds;
  started_at = now;
  ended_at = none;
  outcome = none;
  failure_kind = none;
  error_code = none;
  error = none;
  output_ref = none;
}

-- the UPDATE and the INSERTs for the claimed row; `rowcount != 1` rolls back and answers None
unfoldable pub start_job :
    JobRow → ExecutionAttempt → ℕ → Db → Result (Option ExecutionAttempt × Db)
start_job r a now db =
    if updated_rows r.job_id db == 1
    then (do
      started ← insert_attempt a (update_job r.job_id (start_row a.attempt_id now) db)
      ok (
        some a,
        record_transition r.job_id (some JobStatus.queued) JobStatus.running Reason.claim now
            started,
      ))
    else ok (none, db)

unfoldable pub claim_row :
    Option JobRow → String → ℕ → ℕ → Ids → Db → Result (Option ExecutionAttempt × Db)
claim_row none worker_id lease_seconds now ids db = ok (none, db)
claim_row (some r) worker_id lease_seconds now ids db = do
  validate_job_transition JobStatus.queued JobStatus.running
  a ← validate_attempt (new_attempt r worker_id lease_seconds now ids)
  start_job r a now db

-- between BEGIN IMMEDIATE and the commit
unfoldable pub claim_body : String → ℕ → ℕ → Ids → Db → Result (Option ExecutionAttempt × Db)
unfolding updated_rows start_job claim_row
claim_body worker_id lease_seconds now ids db =
    claim_row (next_job now db) worker_id lease_seconds now ids db

unfoldable pub claimed_job : Option ExecutionAttempt → Db → Result (Option (Job × ExecutionAttempt))
claimed_job none db = ok none
claimed_job (some a) db = do j ← get_existing_job a.job_id db; ok (some (j, a))

-- A lease of no length, or less, is refused.
unfoldable pub claim : String → ℕ → ℕ → Ids → Db → Db × Result (Option (Job × ExecutionAttempt))
unfolding claimed_job
claim worker_id lease_seconds now ids db =
    if lease_seconds == 0
    then (db, err value_error)
    else transaction (claim_body worker_id lease_seconds now ids) claimed_job db
