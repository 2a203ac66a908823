-- ===== src/Jobs/Enqueue.antt =====
-- `enqueue` of core/jobs/repository.py. The new identifier is an argument.
use galaxz.Prelude.Text.Order.{sorted}
use galaxz.Prelude.{
  ℕ, String, Bool, false, not, Option, none, some, [], ◌∷◌, ◌++◌, ◌==◌, is_none, get_or, Result, ok,
  err, guard, value_error, integrity_error, ◌>>=◌, ◌>>◌,
}
use galaxz.Prelude.Int.{ℤ}
use galaxz.Prelude.Text.{str_eq}
use galaxz.Prelude.Table.{find_by}
use galaxz.Contracts.Task.{TaskContract}
use galaxz.Contracts.Job.{JobStatus, RetryPolicy, default_retry_policy, Job, validate_job}
use galaxz.Jobs.Store.{
  JobRow, IdempotencyRow, Reason, Db, find_job, find_key, find_task, record_transition,
  job_from_row, transaction,
}

pub record Request : Type 0 where
  pub task_id : ℕ
  pub task : Option TaskContract
  pub idempotency_key : String
  pub priority : ℤ
  pub retry_policy : Option RetryPolicy

unfoldable pub policy_of : Request → RetryPolicy
policy_of q = get_or q.retry_policy default_retry_policy

-- `task is not None and task.task_id != task_id`
mismatched : Option TaskContract → ℕ → Bool
mismatched none id = false
mismatched (some t) id = not (t.task_id == id)

-- the record that is validated before the transaction
unfoldable pub candidate : Request → ℕ → ℕ → Result Job
unfolding policy_of mismatched
candidate q now job_id = do
  guard (not (mismatched q.task q.task_id)) value_error
  validate_job (record {
    job_id = job_id;
    task_id = q.task_id;
    status = JobStatus.queued;
    priority = q.priority;
    idempotency_key = q.idempotency_key;
    retry_policy = policy_of q;
    created_at = now;
    updated_at = now;
    available_at = now;
    cancellation_requested_at = none;
    cancelled_at = none;
  })

unfoldable pub has_key : String → IdempotencyRow → Bool
has_key key k = str_eq k.idempotency_key key

-- the row of the job that already has the key, with JOIN jobs
unfoldable pub existing_job : String → Db → Option JobRow
unfolding has_key
existing_job key db = elim (find_by (has_key key) db.idempotency) [
  | none ↦ none
  | some k ↦ find_job k.job_id db
]

unfoldable pub insert_task : ℕ → Option TaskContract → Db → Result Db
insert_task id none db = ok db
insert_task id (some t) db = do
  guard (is_none (find_task id db)) integrity_error
  ok (record db { tasks = db.tasks ++ record { job_id = id; task = t } ∷ [] })

-- the policy as it is stored: `json.dumps(sorted(retry_policy.retryable_outcomes))`
unfoldable pub stored_policy : RetryPolicy → RetryPolicy
stored_policy p = record p { retryable_outcomes = sorted p.retryable_outcomes }

unfoldable pub new_row : Job → JobRow
unfolding stored_policy
new_row j = record {
  job_id = j.job_id;
  task_id = j.task_id;
  status = j.status;
  priority = j.priority;
  retry_policy = stored_policy j.retry_policy;
  attempt_count = 0;
  active_attempt_id = none;
  created_at = j.created_at;
  updated_at = j.updated_at;
  available_at = j.available_at;
  cancellation_requested_at = none;
  cancelled_at = none;
}

-- the INSERTs of a new job
unfoldable pub insert_job : Job → Option TaskContract → Db → Result Db
unfolding new_row insert_task has_key
insert_job j task db = do
  guard (is_none (find_job j.job_id db)) integrity_error
  let with_row = record db { jobs = db.jobs ++ new_row j ∷ [] }
  guard (is_none (find_key j.job_id db)) integrity_error
  guard (is_none (find_by (has_key j.idempotency_key) db.idempotency)) integrity_error
  let with_key = record with_row {
    idempotency =
        db.idempotency
        ++ record {
          idempotency_key = j.idempotency_key;
          job_id = j.job_id;
          created_at = j.created_at;
        }
          ∷ [];
  }
  with_task ← insert_task j.job_id task with_key
  ok (record_transition j.job_id none JobStatus.queued Reason.enqueue j.created_at with_task)

-- What the transaction leaves to be answered: a row that was there, or the new record.
unfoldable pub enqueue_body : Job → Option TaskContract → Db → Result (Option JobRow × Db)
enqueue_body j task db = elim (existing_job j.idempotency_key db) [
  | some r ↦ ok (some r, db)
  | none ↦ do db' ← insert_job j task db; ok (none, db')
]

unfoldable pub answer : Job → Option JobRow → Result Job
answer j none = ok j
answer j (some r) = job_from_row r j.idempotency_key

unfoldable pub enqueue : Request → ℕ → ℕ → Db → Db × Result Job
unfolding enqueue_body answer
enqueue q now job_id db = elim (candidate q now job_id) [
  | err e ↦ (db, err e)
  | ok j ↦ transaction (enqueue_body j q.task) (λ old _. answer j old) db
]
