-- ===== src/Jobs/Failure.antt =====
-- `record_failure` and `fail` of core/jobs/repository.py.
use galaxz.Prelude.{
  ℕ, ◌+◌, String, Bool, false, ◌&&◌, none, some, ltb, is_none, Result, ok, guard, invalid_job_state,
  ◌>>=◌, ◌>>◌, if◌then◌else◌,
}
use galaxz.Prelude.Text.{contains}
use galaxz.Contracts.Job.{
  JobStatus, AttemptOutcome, status_eq, validate_job_transition, Job, ExecutionAttempt,
}
use galaxz.Jobs.Store.{
  JobRow, Reason, Db, with_job, update_job, update_attempt, record_transition, get_existing_job,
  transaction,
}
use galaxz.Jobs.Lease.{live_attempt}
use galaxz.Jobs.Backoff.{retry_delay}

pub record Failure : Type 0 where
  pub job_id : ℕ
  pub lease_token : ℕ
  pub error : String
  pub error_code : String
  pub failure_kind : String
  pub retryable : Bool

unfoldable pub should_retry : Failure → JobRow → Bool
should_retry f r =
    f.retryable
    && contains r.retry_policy.retryable_outcomes f.error_code
    && ltb r.attempt_count r.retry_policy.max_attempts

unfoldable pub fail_attempt : Failure → ℕ → ExecutionAttempt → ExecutionAttempt
fail_attempt f now a =
    if is_none a.ended_at
    then record a {
      ended_at = some now;
      outcome = some AttemptOutcome.failed;
      failure_kind = some f.failure_kind;
      error_code = some f.error_code;
      error = some f.error;
    }
    else a

-- the row after `UPDATE jobs … WHERE status = 'running'`
unfoldable pub release_row : JobStatus → ℕ → ℕ → JobRow → JobRow
release_row target now available_at r =
    if status_eq r.status JobStatus.running
    then record r {
      status = target;
      active_attempt_id = none;
      updated_at = now;
      available_at = available_at;
    }
    else r

unfoldable pub failure_target : Failure → JobRow → JobStatus
failure_target f r = if should_retry f r then JobStatus.queued else JobStatus.failed

unfoldable pub failure_reason : Failure → JobRow → Reason
failure_reason f r =
    if should_retry f r then Reason.retry f.error_code else Reason.failed f.error_code

unfoldable pub failure_row : Failure → ℕ → Db → JobRow → Result Db
failure_row f now db r = do
  guard (status_eq r.status JobStatus.running) invalid_job_state
  a ← live_attempt f.job_id f.lease_token now db
  validate_job_transition JobStatus.running (failure_target f r)
  delay ← retry_delay r.retry_policy r.attempt_count
  ok (
      record_transition f.job_id (some JobStatus.running) (failure_target f r) (failure_reason f r)
        now
        (update_job f.job_id
          (release_row (failure_target f r) now (if should_retry f r then now + delay else now))
          (update_attempt a.attempt_id (fail_attempt f now) db)))

unfoldable pub failure_body : Failure → ℕ → Db → Result (Unit {0} × Db)
failure_body f now db = with_job f.job_id (failure_row f now db) db

unfoldable pub record_failure : Failure → ℕ → Db → Db × Result Job
record_failure f now db =
    transaction (failure_body f now) (λ _ db'. get_existing_job f.job_id db') db

-- `fail`
unfoldable pub fail : Failure → ℕ → Db → Db × Result Job
fail f now db = record_failure (record f { retryable = false }) now db
