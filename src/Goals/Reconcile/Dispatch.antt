-- ===== src/Goals/Reconcile/Dispatch.antt =====
-- The last loop of `reconcile` in core/goals/coordinator.py, which hands waiting tasks to the job
-- repository while there are slots.
pub mod Changes
pub mod Counts
use galaxz.Prelude.{
  ℕ, zero, suc, ◌-◌, min, String, Bool, true, false, Option, none, some, List, [], ◌∷◌, Result, ok,
  err, require, Error, key_error, ◌>>=◌, if◌then◌else◌,
}
use galaxz.Prelude.Int.{ℤ, pos}
use galaxz.Prelude.Table.Count.{count}
use galaxz.Contracts.Json.{Json}
use galaxz.Contracts.Task.{TaskContract, validate_task}
use galaxz.Contracts.Job.{Job, JobStatus}
use galaxz.Jobs.Store.{Db}
use galaxz.Jobs.Enqueue.{Request, enqueue}
use galaxz.Jobs.Listing.{list_jobs}
use galaxz.Goals.Plan.{PlannedTask, PlannedRow, TaskStatus}
use galaxz.Goals.Store.{Goal}
use galaxz.Goals.Control.{World}
use galaxz.Goals.Keys.{key, goal_origin}
use galaxz.Goals.Substitution.{resolve_payload}
use galaxz.Goals.Reconcile.Settle.{write_task, set_failed}

pub record Limits : Type 0 where
  pub per_goal : ℕ
  pub global : ℕ

-- the identifier of a task's new job and the time of its request, and the time when a goal ends
pub record Draw : Type 0 where
  pub job_id : ℕ → ℕ
  pub time : ℕ → ℕ
  pub ended : ℕ → ℕ

-- the length of a number in a JSON text, and the text of an exception
pub record Texts : Type 0 where
  pub num_size : ℤ → ℕ
  pub message : Error → String

abbrev pub max_payload_bytes : ℕ
max_payload_bytes = 65_536

-- `status="running", job_id=…, resolved_payload=…`
unfoldable pub set_running : ℕ → Json → PlannedRow → PlannedRow
set_running job payload r = record r {
  task = record r.task { status = TaskStatus.running };
  job_id = some job;
  resolved_payload = some payload;
}

abbrev pub is_complete : TaskStatus → Bool
is_complete TaskStatus.complete = true
is_complete _ = false

abbrev pub is_running : TaskStatus → Bool
is_running TaskStatus.running = true
is_running _ = false

abbrev runs : JobStatus → Bool
runs JobStatus.running = true
runs _ = false

-- `all(by_id[dep].status == "complete" for dep in task.depends_on)`
unfoldable pub all_complete : List ℕ → (ℕ → Option PlannedTask) → Result Bool
all_complete [] deps = ok true
all_complete (d ∷ ds) deps = do
  t ← require (deps d) key_error
  if is_complete t.status then all_complete ds deps else ok false

-- the contract of a task with its payload
unfoldable pub task_contract : Goal → PlannedTask → Json → Result TaskContract
task_contract g t payload = validate_task (record {
  task_id = t.task_id;
  origin = goal_origin g.goal_id;
  skill = t.skill;
  payload = payload;
  confidence_threshold = g.confidence_threshold;
  workspace_root = g.workspace_root;
})

unfoldable pub request : String → TaskContract → Request
request idempotency_key c = record {
  task_id = c.task_id;
  task = some c;
  idempotency_key = idempotency_key;
  priority = pos 0;
  retry_policy = none;
}

-- The row takes the job's identifier, once the repository has answered.
enqueued : ℕ → (ℕ → PlannedRow → PlannedRow) → Db × Result Job → World → World × Result (Unit {0})
enqueued task_id f (jobs, err e) w = (record w { jobs = jobs }, err e)
enqueued task_id f (jobs, ok j) w =
    (record { store = write_task task_id (f j.job_id) w.store; jobs = jobs }, ok tt)

-- `enqueue` and `update_task`
unfoldable pub submit :
    String
    → Result TaskContract
    → (ℕ → PlannedRow → PlannedRow)
    → Draw
    → World
    → World × Result (Unit {0})
unfolding request enqueued
submit idempotency_key (err e) f d w = (w, err e)
submit idempotency_key (ok c) f d w =
    enqueued c.task_id f
      (enqueue (request idempotency_key c) (d.time c.task_id) (d.job_id c.task_id) w.jobs) w

module _ (x : Texts) (d : Draw) (g : Goal) (deps : ℕ → Option PlannedTask) where
  dispatch_payload : PlannedTask → Result Json → World → World × Result Bool
  dispatch_payload t (err e) w =
      (record w { store = write_task t.task_id (set_failed (x.message e)) w.store }, ok false)
  dispatch_payload t (ok payload) w =
      let sent =
        submit (key g.goal_id t.task_id) (task_contract g t payload)
          (λ job. set_running job payload) d w in
      (sent.0, elim sent.1 [ err e ↦ err e | ok u ↦ ok true ])

  dispatch_if : PlannedTask → Result Bool → World → World × Result Bool
  unfolding dispatch_payload
  dispatch_if t (err e) w = (w, err e)
  dispatch_if t (ok false) w = (w, ok false)
  dispatch_if t (ok true) w =
      dispatch_payload t (resolve_payload x.num_size max_payload_bytes t deps) w

  -- one turn of the loop, and whether it takes a slot
  unfoldable pub dispatch_task : PlannedTask → TaskStatus → World → World × Result Bool
  unfolding dispatch_if
  dispatch_task t TaskStatus.pending w = dispatch_if t (all_complete t.depends_on deps) w
  dispatch_task t _ w = (w, ok false)

  unfoldable pub dispatch : ℕ → List PlannedTask → World → World × Result (Unit {0})
  dispatch slots [] w = (w, ok tt)
  dispatch zero (t ∷ ts) w = (w, ok tt)
  dispatch (suc n) (t ∷ ts) w =
      let first = dispatch_task t t.status w in
      elim first.1 [
        | err e ↦ (first.0, err e)
        | ok used ↦ dispatch (if used then n else suc n) ts first.0
      ]

unfoldable pub running_tasks : List PlannedTask → ℕ
running_tasks tasks = count (λ (t : PlannedTask). is_running t.status) tasks

-- The slots that are left; the running jobs are counted among the newest 500.
unfoldable pub slots : Limits → List PlannedTask → Db → Result ℕ
slots l tasks jobs = do
  newest ← list_jobs 500 jobs
  ok (min (l.per_goal - running_tasks tasks) (l.global - count (λ (j : Job). runs j.status) newest))
