-- ===== src/Jobs/Finish.antt =====
-- `_finish` and `complete` of core/jobs/repository.py. Only `complete` calls `_finish`.
use galaxz.Prelude.{
  ℕ, String, Bool, false, not, ◌&&◌, ◌||◌, Option, none, some, ◌∷◌, [], ◌++◌, ◌==◌, is_none,
  is_some, Result, ok, guard, invalid_job_state, integrity_error, ◌>>=◌, ◌>>◌, if◌then◌else◌,
}
use galaxz.Prelude.Text.{str_eq}
use galaxz.Prelude.Table.{find_by, exists}
use galaxz.Contracts.Json.{Json, get, truthy, is_text, dumps, json_eq}
use galaxz.Contracts.Job.{
  JobStatus, AttemptOutcome, status_eq, is_completed, validate_job_transition, Job,
  ExecutionAttempt,
}
use galaxz.Jobs.Store.{
  JobRow, OutputRow, OutboxRow, Reason, Db, with_job, find_task, find_output, find_outbox,
  update_job, update_attempt, record_transition, get_existing_job, transaction,
}
use galaxz.Jobs.Lease.{live_attempt}

pub record Completion : Type 0 where
  pub job_id : ℕ
  pub lease_token : ℕ
  pub output_ref : String
  pub result : Option Json

unfoldable pub prior_of : ℕ → ℕ → ExecutionAttempt → Bool
prior_of job_id lease_token a =
    a.job_id == job_id && a.lease_token == lease_token && is_completed a.outcome

unfoldable pub same_ref : Option ExecutionAttempt → String → Bool
same_ref none ref = false
same_ref (some a) ref = elim a.output_ref [ none ↦ false | some old ↦ str_eq old ref ]

-- `prior is not None and prior["output_ref"] == output_ref`, on a completed job
unfoldable pub is_repeat : Completion → JobRow → Db → Bool
unfolding prior_of same_ref
is_repeat c r db =
    status_eq r.status JobStatus.completed
    && same_ref (find_by (prior_of c.job_id c.lease_token) db.attempts) c.output_ref

-- the stored result is the text of `result`
unfoldable pub has_result : Option OutputRow → Json → Bool
has_result none result = false
has_result (some o) result = json_eq o.result (dumps result)

-- `result is not None and (persisted is None or …)`
unfoldable pub conflicts : Option OutputRow → Option Json → Bool
conflicts stored none = false
conflicts stored (some result) = not (has_result stored result)

unfoldable pub end_attempt : String → ℕ → ExecutionAttempt → ExecutionAttempt
end_attempt output_ref now a =
    if is_none a.ended_at
    then record a {
      ended_at = some now;
      outcome = some AttemptOutcome.completed;
      error = none;
      output_ref = some output_ref;
    }
    else a

unfoldable pub complete_row : ℕ → JobRow → JobRow
complete_row now r =
    if status_eq r.status JobStatus.running
    then record r { status = JobStatus.completed; active_attempt_id = none; updated_at = now }
    else r

-- `INSERT OR IGNORE INTO job_outputs`, after the test for another result
unfoldable pub insert_output : ℕ → Json → ℕ → Option OutputRow → Db → Result Db
insert_output job_id result now none db = ok (record db {
  outputs = db.outputs ++ record { job_id = job_id; result = dumps result; created_at = now } ∷ [];
})
insert_output job_id result now (some o) db = do
  guard (has_result (some o) result) invalid_job_state
  ok db

-- results that carry artifacts, or that await a review, are published later
unfoldable pub needs_outbox : Json → Bool
needs_outbox result = truthy (get "artifacts" result) || is_text "escalated" (get "status" result)

unfoldable pub insert_outbox : ℕ → ℕ → ℕ → Db → Result Db
insert_outbox job_id attempt_id now db = do
  guard (is_some (find_task job_id db)) invalid_job_state
  guard (is_none (find_outbox job_id db)) integrity_error
  guard (not (exists (λ (e : OutboxRow). e.attempt_id == attempt_id) db.outbox)) integrity_error
  ok (record db {
    outbox =
        db.outbox
        ++ record {
          job_id = job_id;
          attempt_id = attempt_id;
          created_at = now;
          published_at = none;
        }
          ∷ [];
  })

unfoldable pub store_result : ℕ → ℕ → ℕ → Option Json → Db → Result Db
unfolding insert_output insert_outbox
store_result job_id attempt_id now none db = ok db
store_result job_id attempt_id now (some result) db = do
  stored ← insert_output job_id result now (find_output job_id db) db
  if needs_outbox result then insert_outbox job_id attempt_id now stored else ok stored

unfoldable pub finish_running : Completion → ℕ → Db → JobRow → Result Db
finish_running c now db r = do
  guard (status_eq r.status JobStatus.running) invalid_job_state
  a ← live_attempt c.job_id c.lease_token now db
  validate_job_transition r.status JobStatus.completed
  stored ←
      store_result c.job_id a.attempt_id now c.result
        (update_attempt a.attempt_id (end_attempt c.output_ref now) db)
  ok (
      record_transition c.job_id (some r.status) JobStatus.completed Reason.finished now
        (update_job c.job_id (complete_row now) stored))

-- a repeated completion changes nothing, and must not bring another result
unfoldable pub finish_one : Completion → ℕ → Db → JobRow → Result Db
finish_one c now db r =
    if is_repeat c r db
    then (do guard (not (conflicts (find_output c.job_id db) c.result)) invalid_job_state; ok db)
    else finish_running c now db r

unfoldable pub finish_body : Completion → ℕ → Db → Result (Unit {0} × Db)
finish_body c now db = with_job c.job_id (finish_one c now db) db

unfoldable pub complete : Completion → ℕ → Db → Db × Result Job
complete c now db = transaction (finish_body c now) (λ _ db'. get_existing_job c.job_id db') db
