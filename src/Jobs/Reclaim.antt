-- ===== src/Jobs/Reclaim.antt =====
-- `reclaim_expired` of core/jobs/repository.py.
use galaxz.Prelude.{
  ℕ, ◌+◌, Bool, false, ◌&&◌, Option, none, some, List, [], ◌∷◌, map, leb, is_none, Result, ok,
  ◌>>=◌, ◌>>◌, if◌then◌else◌,
}
use galaxz.Prelude.Table.{select}
use galaxz.Contracts.Job.{
  JobStatus, AttemptOutcome, status_eq, validate_job_transition, Job, ExecutionAttempt,
}
use galaxz.Jobs.Store.{
  JobRow, Reason, Db, find_attempt, update_job, record_transition, get_job, transaction,
}
use galaxz.Jobs.Backoff.{retry_delay}
use galaxz.Jobs.Cancel.{stop_active}

-- the attempt of the JOIN is open, and its lease is over
is_over : ℕ → Option ExecutionAttempt → Bool
is_over now none = false
is_over now (some a) = is_none a.ended_at && leb a.lease_expires_at now

-- the WHERE of the query
unfoldable pub lease_expired : ℕ → Db → JobRow → Bool
unfolding is_over
lease_expired now db r =
    status_eq r.status JobStatus.running
    && elim r.active_attempt_id [ none ↦ false | some id ↦ is_over now (find_attempt id db) ]

unfoldable pub is_last : JobRow → Bool
is_last r = leb r.retry_policy.max_attempts r.attempt_count

unfoldable pub reclaim_target : JobRow → JobStatus
reclaim_target r = if is_last r then JobStatus.failed else JobStatus.queued

unfoldable pub reclaim_row : JobStatus → ℕ → ℕ → JobRow → JobRow
reclaim_row target now available_at r = record r {
  status = target;
  active_attempt_id = none;
  updated_at = now;
  available_at = available_at;
}

-- the body of the loop; `r` is the row as it was selected
unfoldable pub reclaim_one : ℕ → JobRow → Db → Result Db
reclaim_one now r db = do
  validate_job_transition JobStatus.running (reclaim_target r)
  delay ← retry_delay r.retry_policy r.attempt_count
  ok (
      record_transition r.job_id (some JobStatus.running) (reclaim_target r) Reason.lease_expired
        now
        (update_job r.job_id
          (reclaim_row (reclaim_target r) now (if is_last r then now else now + delay))
          (stop_active AttemptOutcome.lease_expired now r.active_attempt_id db)))

unfoldable pub reclaim_all : ℕ → List JobRow → Db → Result Db
reclaim_all now [] db = ok db
reclaim_all now (r ∷ rs) db = do db' ← reclaim_one now r db; reclaim_all now rs db'

unfoldable pub reclaim_body : ℕ → Db → Result (List ℕ × Db)
reclaim_body now db =
    let rows = select (lease_expired now db) db.jobs in
    do db' ← reclaim_all now rows db; ok (map (λ (r : JobRow). r.job_id) rows, db')

keep_found : Option Job → List Job → List Job
keep_found none js = js
keep_found (some j) js = j ∷ js

-- `[job for job_id in ids if (job := self.get_job(job_id)) is not None]`
get_jobs : List ℕ → Db → Result (List Job)
unfolding keep_found
get_jobs [] db = ok []
get_jobs (id ∷ ids) db = do
  found ← get_job id db
  rest ← get_jobs ids db
  ok (keep_found found rest)

unfoldable pub reclaim_expired : ℕ → Db → Db × Result (List Job)
unfolding get_jobs
reclaim_expired now db = transaction (reclaim_body now) get_jobs db
