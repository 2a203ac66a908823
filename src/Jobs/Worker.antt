-- ===== src/Jobs/Worker.antt =====
-- The worker of core/jobs/worker.py: its configuration, the end of an execution, a beat of its
-- heartbeat and a cycle of its loop. The executor is a parameter: `Executed` is how it ended.
pub mod Cycle
pub mod Executions
pub mod Beats
pub mod Endings
use Prim.Native.String.{◌++◌}
use galaxz.Prelude.{
  ◌||◌, ℕ, String, Bool, true, false, not, Option, none, some, List, [], ◌∷◌, ltb, leb, length,
  Result, ok, err, Error, guard, value_error, lease_conflict, invalid_job_state, ◌>>=◌, ◌>>◌,
  if◌then◌else◌, ◌==◌,
}
use galaxz.Prelude.Text.{str_eq, strip}
use galaxz.Prelude.Text.Uuid.{uuid_text}
use galaxz.Prelude.Table.{select}
use galaxz.Contracts.Json.{Json}
use galaxz.Contracts.Job.{Job, ExecutionAttempt, is_cancelled}
use galaxz.Jobs.Store.{Db, get_task, get_job}
use galaxz.Jobs.Claim.{Ids, claim}
use galaxz.Jobs.Heartbeat.{heartbeat}
use galaxz.Jobs.Finish.{complete}
use galaxz.Jobs.Failure.{record_failure}
use galaxz.Jobs.Reclaim.{reclaim_expired}

pub record WorkerConfig : Type 0 where
  pub worker_id : String
  pub concurrency : ℕ
  pub lease_seconds : ℕ
  pub heartbeat_seconds : ℕ
  pub poll_seconds : ℕ

-- `__post_init__`
unfoldable pub validate_config : WorkerConfig → Result WorkerConfig
validate_config c = do
  guard (not (str_eq (strip c.worker_id) "")) value_error
  guard (leb 1 c.concurrency) value_error
  guard (ltb 0 c.lease_seconds) value_error
  guard (ltb 0 c.heartbeat_seconds) value_error
  guard (ltb c.heartbeat_seconds c.lease_seconds) value_error
  guard (ltb 0 c.poll_seconds) value_error
  ok c

-- the job that a worker holds
pub record Held : Type 0 where
  pub job_id : ℕ
  pub lease_token : ℕ

pub data Executed : Type 0 where
  returned : Json → Executed
  cancelled : Executed  -- JobCancelled
  transient : String → String → Executed  -- the message and the code of a RetryableExecutionError
  refused : Executed  -- LeaseConflict or InvalidJobState
  raised : String → Executed  -- another exception

-- how an execution ends: what is logged, or the exception that leaves the thread
pub data Ending : Type 0 where
  completed cancelled failed late_result late_failure : Ending
  escaped : Error → Ending

-- `except (LeaseConflict, InvalidJobState)`
unfoldable pub is_late : Error → Bool
is_late lease_conflict = true
is_late invalid_job_state = true
is_late _ = false

after_failure : Result Job → Ending
unfolding is_late
after_failure (ok j) = Ending.failed
after_failure (err e) = if is_late e then Ending.late_failure else Ending.escaped e

-- `_record_failure`
unfoldable pub report_failure : Held → String → String → Bool → ℕ → Db → Db × Ending
unfolding after_failure
report_failure h text code retryable now db =
    let out =
      record_failure
        (record {
          job_id = h.job_id;
          lease_token = h.lease_token;
          error = text;
          error_code = code;
          failure_kind = "execution";
          retryable = retryable;
        })
        now db in
    (out.0, after_failure out.1)

missing_input : Result Job → Ending
missing_input (ok j) = Ending.failed
missing_input (err e) = Ending.escaped e

-- the branch for a job without a task, outside of the `try`
unfoldable pub fail_missing : Held → ℕ → Db → Db × Ending
unfolding missing_input
fail_missing h now db =
    let out =
      record_failure
        (record {
          job_id = h.job_id;
          lease_token = h.lease_token;
          error = "persisted task input is missing";
          error_code = "invalid_input";
          failure_kind = "execution";
          retryable = false;
        })
        now db in
    (out.0, missing_input out.1)

-- The times of an execution's calls of the repository, and what the other callers make of the tables
-- between them.
pub record Schedule : Type 0 where
  pub start : ℕ  -- the report that a task is missing
  pub while_running : Db → Db
  pub ended : ℕ  -- the call after the executor
  pub after_refusal : Db → Db
  pub reported : ℕ  -- the report that `complete` raised

module _ (message : Error → String) where
  after_complete : Held → Schedule → Db × Result Job → Db × Ending
  unfolding is_late
  after_complete h t (db, ok j) = (db, Ending.completed)
  after_complete h t (db, err e) =
      if is_late e
      then (db, Ending.late_result)
      else report_failure h (message e) "permanent" false t.reported (t.after_refusal db)

  -- the `try` of `_execute`, from where the executor ends; `message` is `str` of an exception
  unfoldable pub finish_execution : Held → Executed → Bool → Schedule → Db → Db × Ending
  unfolding after_complete
  finish_execution h (Executed.returned result) true t db = (db, Ending.cancelled)
  finish_execution h (Executed.returned result) false t db = after_complete h t (
      complete
        (record {
          job_id = h.job_id;
          lease_token = h.lease_token;
          output_ref = "job-output:" ++ uuid_text h.job_id;
          result = some result;
        })
        t.ended db)
  finish_execution h Executed.cancelled token t db = (db, Ending.cancelled)
  finish_execution h (Executed.transient text code) token t db =
      report_failure h text code true t.ended db
  finish_execution h Executed.refused token t db = (db, Ending.late_result)
  finish_execution h (Executed.raised text) token t db =
      report_failure h text "permanent" false t.ended db

  -- `_execute`
  unfoldable pub execute : Held → Executed → Bool → Schedule → Db → Db × Ending
  execute h x token t db = elim (get_task h.job_id db) [
    | none ↦ fail_missing h t.start db
    | some task ↦ finish_execution h x token t (t.while_running db)
  ]

-- whether the heartbeat goes on, cancels the execution's token, or dies of an exception
pub data Beat : Type 0 where
  continues stops : Beat
  dies : Error → Beat

after_beat : Result ExecutionAttempt → Beat
unfolding is_late
after_beat (ok a) = Beat.continues
after_beat (err e) = if is_late e then Beat.stops else Beat.dies e

-- one turn of the loop of `_heartbeat`
unfoldable pub beat : Held → ℕ → ℕ → Db → Db × Beat
unfolding after_beat
beat h lease_seconds now db = elim (get_job h.job_id db) [
  | err e ↦ (db, Beat.dies e)
  | ok found ↦ elim found [
    | none ↦ (db, Beat.stops)
    | some j ↦ if is_cancelled j.status then (db, Beat.stops) else (
      (heartbeat h.job_id h.lease_token lease_seconds now db).0,
      after_beat (heartbeat h.job_id h.lease_token lease_seconds now db).1,
    )
  ]
]

pub record WorkerState : Type 0 where
  pub active : List ℕ  -- the attempts of the futures in `_active`
  pub stopping : Bool

-- drop what is done
unfoldable pub running_futures : (ℕ → Bool) → List ℕ → List ℕ
running_futures done active = select (λ a. not (done a)) active

start_claimed : WorkerState → Bool → Option (Job × ExecutionAttempt) → WorkerState × Bool
start_claimed w reclaimed none = (w, reclaimed)
start_claimed w reclaimed (some p) = (record w { active = p.1.attempt_id ∷ w.active }, true)

cycle_claimed :
    WorkerState
    → Bool
    → Db × Result (Option (Job × ExecutionAttempt))
    → Db × (WorkerState × Result Bool)
unfolding start_claimed
cycle_claimed w reclaimed (db, err e) = (db, (w, err e))
cycle_claimed w reclaimed (db, ok found) =
    let next = start_claimed w reclaimed found in (db, (next.0, ok next.1))

any_job : List Job → Bool
any_job [] = false
any_job (j ∷ js) = true

cycle_reclaimed :
    WorkerConfig → Ids → ℕ → WorkerState → Db × Result (List Job) → Db × (WorkerState × Result Bool)
unfolding cycle_claimed any_job
cycle_reclaimed c ids now w (db, err e) = (db, (w, err e))
cycle_reclaimed c ids now w (db, ok jobs) =
    if w.stopping || leb c.concurrency (length w.active)
    then (db, (w, ok (any_job jobs)))
    else cycle_claimed w (any_job jobs) (claim c.worker_id c.lease_seconds now ids db)

-- `run_cycle`: `hook` is how the cycle's hook ends, and `db` the tables after it
unfoldable pub run_cycle :
    WorkerConfig
    → Result (Unit {0})
    → (ℕ → Bool)
    → Ids
    → ℕ
    → ℕ
    → WorkerState
    → Db
    → Db × (WorkerState × Result Bool)
unfolding cycle_reclaimed
run_cycle c (err e) done ids swept now w db = (db, (w, err e))
run_cycle c (ok u) done ids swept now w db =
    cycle_reclaimed c ids now (record w { active = running_futures done w.active })
      (reclaim_expired swept db)
