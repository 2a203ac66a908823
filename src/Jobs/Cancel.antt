-- ===== src/Jobs/Cancel.antt =====
-- `cancel` of core/jobs/repository.py.
use galaxz.Prelude.{ℕ, Option, none, some, is_none, Result, ok, ◌>>◌, if◌then◌else◌}
use galaxz.Contracts.Job.{
  JobStatus, AttemptOutcome, status_eq, is_cancelled, validate_job_transition, Job,
  ExecutionAttempt,
}
use galaxz.Jobs.Store.{
  JobRow, Reason, Db, with_job, update_job, update_attempt, record_transition, get_existing_job,
  transaction,
}

unfoldable pub stop_attempt : AttemptOutcome → ℕ → ExecutionAttempt → ExecutionAttempt
stop_attempt outcome now a =
    if is_none a.ended_at then record a { ended_at = some now; outcome = some outcome } else a

-- `WHERE attempt_id = ?` matches no row if the identifier is NULL
unfoldable pub stop_active : AttemptOutcome → ℕ → Option ℕ → Db → Db
stop_active outcome now none db = db
stop_active outcome now (some id) db = update_attempt id (stop_attempt outcome now) db

unfoldable pub cancel_row : ℕ → JobRow → JobRow
cancel_row now r = record r {
  status = JobStatus.cancelled;
  active_attempt_id = none;
  updated_at = now;
  cancellation_requested_at = some now;
  cancelled_at = some now;
}

cancel_open : ℕ → ℕ → Db → JobRow → Result Db
cancel_open job_id now db r = do
  validate_job_transition r.status JobStatus.cancelled
  ok (
      record_transition job_id (some r.status) JobStatus.cancelled Reason.cancel now (
        update_job job_id (cancel_row now) (
          if status_eq r.status JobStatus.running
          then stop_active AttemptOutcome.cancelled now r.active_attempt_id db
          else db)))

unfoldable pub cancel_one : ℕ → ℕ → Db → JobRow → Result Db
unfolding cancel_open
cancel_one job_id now db r = if is_cancelled r.status then ok db else cancel_open job_id now db r

unfoldable pub cancel_body : ℕ → ℕ → Db → Result (Unit {0} × Db)
cancel_body job_id now db = with_job job_id (cancel_one job_id now db) db

unfoldable pub cancel : ℕ → ℕ → Db → Db × Result Job
cancel job_id now db =
    transaction (cancel_body job_id now) (λ _ db'. get_existing_job job_id db') db
