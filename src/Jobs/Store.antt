-- ===== src/Jobs/Store.antt =====
-- The tables of core/jobs/migrations.py, the mapping of rows to records, and the transactions of
-- core/jobs/repository.py.
use galaxz.Prelude.{
  ℕ, String, Option, none, some, List, [], ◌∷◌, ◌++◌, Result, ok, err, require, assertion_error,
  key_error, ◌>>=◌,
}
use galaxz.Prelude.Int.{ℤ}
use galaxz.Prelude.Text.{str_eq}
use galaxz.Prelude.Table.{find, find_by, modify}
use galaxz.Contracts.Json.{Json}
use galaxz.Contracts.Task.{TaskContract}
use galaxz.Contracts.Job.{
  JobStatus, RetryPolicy, validate_policy, Job, validate_job, ExecutionAttempt,
}

pub record JobRow : Type 0 where
  pub job_id : ℕ
  pub task_id : ℕ
  pub status : JobStatus
  pub priority : ℤ
  pub retry_policy : RetryPolicy  -- four columns
  pub attempt_count : ℕ
  pub active_attempt_id : Option ℕ
  pub created_at : ℕ
  pub updated_at : ℕ
  pub available_at : ℕ
  pub cancellation_requested_at : Option ℕ
  pub cancelled_at : Option ℕ

pub record IdempotencyRow : Type 0 where
  pub idempotency_key : String
  pub job_id : ℕ
  pub created_at : ℕ

pub record TaskRow : Type 0 where
  pub job_id : ℕ
  pub task : TaskContract

pub record OutputRow : Type 0 where
  pub job_id : ℕ
  pub result : Json
  pub created_at : ℕ

pub record OutboxRow : Type 0 where
  pub job_id : ℕ
  pub attempt_id : ℕ
  pub created_at : ℕ
  pub published_at : Option ℕ

-- The texts of `reason`: "enqueue", "claim", "cancel", "lease_expired", "retry:…", "failed:…", and
-- the value of the outcome of a finished attempt.
pub data Reason : Type 0 where
  enqueue claim cancel lease_expired finished : Reason
  retry failed : String → Reason

pub record TransitionRow : Type 0 where
  pub job_id : ℕ
  pub from_status : Option JobStatus
  pub to_status : JobStatus
  pub reason : Reason
  pub created_at : ℕ

pub record Db : Type 0 where
  pub jobs : List JobRow
  pub idempotency : List IdempotencyRow
  pub tasks : List TaskRow
  pub attempts : List ExecutionAttempt
  pub outputs : List OutputRow
  pub outbox : List OutboxRow
  pub transitions : List TransitionRow

abbrev pub empty : Db
empty = record {
  jobs = [];
  idempotency = [];
  tasks = [];
  attempts = [];
  outputs = [];
  outbox = [];
  transitions = [];
}

abbrev pub find_job : ℕ → Db → Option JobRow
find_job id db = find (λ (r : JobRow). r.job_id) id db.jobs

abbrev pub find_attempt : ℕ → Db → Option ExecutionAttempt
find_attempt id db = find (λ (a : ExecutionAttempt). a.attempt_id) id db.attempts

abbrev pub find_key : ℕ → Db → Option IdempotencyRow
find_key id db = find (λ (r : IdempotencyRow). r.job_id) id db.idempotency

abbrev pub find_output : ℕ → Db → Option OutputRow
find_output id db = find (λ (r : OutputRow). r.job_id) id db.outputs

abbrev pub find_task : ℕ → Db → Option TaskRow
find_task id db = find (λ (r : TaskRow). r.job_id) id db.tasks

abbrev pub find_outbox : ℕ → Db → Option OutboxRow
find_outbox id db = find (λ (r : OutboxRow). r.job_id) id db.outbox

abbrev pub update_job : ℕ → (JobRow → JobRow) → Db → Db
update_job id f db = record db { jobs = modify (λ (r : JobRow). r.job_id) id f db.jobs }

abbrev pub update_attempt : ℕ → (ExecutionAttempt → ExecutionAttempt) → Db → Db
update_attempt id f db = record db {
  attempts = modify (λ (a : ExecutionAttempt). a.attempt_id) id f db.attempts;
}

-- `_record_transition`
unfoldable pub record_transition : ℕ → Option JobStatus → JobStatus → Reason → ℕ → Db → Db
record_transition id current target reason now db = record db {
  transitions =
      db.transitions
      ++ record {
        job_id = id;
        from_status = current;
        to_status = target;
        reason = reason;
        created_at = now;
      }
        ∷ [];
}

-- `_job_from_row`: the validators run again on what was read
unfoldable pub job_from_row : JobRow → String → Result Job
job_from_row r key = do
  policy ← validate_policy r.retry_policy
  validate_job (record {
    job_id = r.job_id;
    task_id = r.task_id;
    status = r.status;
    priority = r.priority;
    idempotency_key = key;
    retry_policy = policy;
    created_at = r.created_at;
    updated_at = r.updated_at;
    available_at = r.available_at;
    cancellation_requested_at = r.cancellation_requested_at;
    cancelled_at = r.cancelled_at;
  })

-- the row of the join of `jobs` and `job_idempotency`, if both tables have one
joined : Option JobRow → Option IdempotencyRow → Result (Option Job)
joined none k = ok none
joined (some r) none = ok none
joined (some r) (some k) = do j ← job_from_row r k.idempotency_key; ok (some j)

-- `get_job`
unfoldable pub get_job : ℕ → Db → Result (Option Job)
unfolding joined
get_job id db = joined (find_job id db) (find_key id db)

-- `get_job_by_idempotency_key`
unfoldable pub get_job_by_idempotency_key : String → Db → Result (Option Job)
unfolding joined
get_job_by_idempotency_key key db =
    elim (find_by (λ (k : IdempotencyRow). str_eq k.idempotency_key key) db.idempotency) [
      | none ↦ ok none
      | some k ↦ joined (find_job k.job_id db) (some k)
    ]

-- `get_job` followed by `assert job is not None`
unfoldable pub get_existing_job : ℕ → Db → Result Job
get_existing_job id db = do found ← get_job id db; require found assertion_error

-- `get_task` and `get_result`
unfoldable pub get_task : ℕ → Db → Option TaskContract
get_task id db = elim (find_task id db) [ none ↦ none | some r ↦ some r.task ]

unfoldable pub get_result : ℕ → Db → Option Json
get_result id db = elim (find_output id db) [ none ↦ none | some r ↦ some r.result ]

-- `SELECT * FROM jobs WHERE job_id = ?`, and KeyError if there is no row
unfoldable pub with_job : ℕ → (JobRow → Result Db) → Db → Result (Unit {0} × Db)
with_job job_id step db = do r ← require (find_job job_id db) key_error; db' ← step r; ok (tt, db')

-- the commit, or the rollback
unfoldable pub settle {ℓ κ} :
    {A : Type ℓ} {B : Type κ} → (A → Db → Result B) → Db → Result (A × Db) → Db × Result B
settle after db (ok (a, db')) = (db', after a db')
settle after db (err e) = (db, err e)

-- The body runs between BEGIN IMMEDIATE and `commit`. An exception rolls the tables back; what
-- comes after the commit reads the new tables, and can only change the answer.
unfoldable pub transaction {ℓ κ} :
    {A : Type ℓ} {B : Type κ} → (Db → Result (A × Db)) → (A → Db → Result B) → Db → Db × Result B
unfolding settle
transaction body after db = settle after db (body db)
