-- ===== src/Goals/Control.antt =====
-- `pause` and `cancel` of core/goals/coordinator.py, on the tables of the goals and those of the
-- jobs. Every call of a store commits, so an exception keeps what was written before it.
pub mod Cancelled
pub mod Shut
use galaxz.Prelude.{
  ℕ, String, Bool, true, false, Option, none, some, List, [], ◌∷◌, Result, ok, err, Error,
  key_error, value_error, if◌then◌else◌,
}
use galaxz.Contracts.Job.{Job, JobStatus}
use galaxz.Jobs.Store.{Db, get_job}
use galaxz.Jobs.Cancel.{cancel}
use galaxz.Goals.Plan.{PlannedTask, TaskStatus, set_status, update_task}
use galaxz.Goals.Store.{
  GoalStatus, GoalDb, get_goal, set_goal_status, get_tasks, task_job, record_event,
}

pub record World : Type 0 where
  pub store : GoalDb
  pub jobs : Db

-- `actor`, `reason` and the time of an event
pub record Order : Type 0 where
  pub actor : String
  pub reason : Option String
  pub now : ℕ

unfoldable pub log : ℕ → String → List ℕ → Order → GoalDb → GoalDb
log id action affected o db =
    record_event
      (record {
        goal_id = id;
        actor = o.actor;
        action = action;
        reason = o.reason;
        affected = affected;
        created_at = o.now;
      })
      db

pause_goal : ℕ → GoalStatus → Order → GoalDb → GoalDb × Result (Unit {0})
pause_goal id GoalStatus.paused o db = (db, ok tt)
pause_goal id GoalStatus.running o db =
    (log id "pause" [] o (set_goal_status id GoalStatus.paused db), ok tt)
pause_goal id _ o db = (db, err value_error)

unfoldable pub pause : ℕ → Order → GoalDb → GoalDb × Result (Unit {0})
unfolding pause_goal
pause id o db = elim (get_goal id db) [
  | none ↦ (db, err key_error)
  | some g ↦ pause_goal id g.status o db
]

abbrev pub is_live_job : JobStatus → Bool
is_live_job JobStatus.queued = true
is_live_job JobStatus.running = true
is_live_job _ = false

-- the job of a running task, if it can still be cancelled
cancel_found : ℕ → Result (Option Job) → Db → Db × Result (Unit {0})
cancel_found now (err e) jobs = (jobs, err e)
cancel_found now (ok none) jobs = (jobs, ok tt)
cancel_found now (ok (some j)) jobs =
    if is_live_job j.status
    then (
      (cancel j.job_id now jobs).0,
      elim (cancel j.job_id now jobs).1 [ err e ↦ err e | ok c ↦ ok tt ],
    )
    else (jobs, ok tt)

cancel_job : ℕ → Result (Option ℕ) → Db → Db × Result (Unit {0})
unfolding cancel_found
cancel_job now (err e) jobs = (jobs, err e)
cancel_job now (ok none) jobs = (jobs, ok tt)
cancel_job now (ok (some id)) jobs = cancel_found now (get_job id jobs) jobs

-- `update_task(status="cancelled")`
unfoldable pub drop_task : ℕ → GoalDb → GoalDb
drop_task id db = record db { rows = update_task id (set_status TaskStatus.cancelled) db.rows }

dropped : ℕ → World → Db × Result (Unit {0}) → World × Result Bool
dropped id w (jobs, ok u) = (record { store = drop_task id w.store; jobs = jobs }, ok true)
dropped id w (jobs, err e) = (record w { jobs = jobs }, err e)

-- one turn of the loop, and whether the task is affected
unfoldable pub cancel_task : ℕ → PlannedTask → TaskStatus → World → World × Result Bool
unfolding cancel_job dropped
cancel_task now t TaskStatus.running w =
    dropped t.task_id w (cancel_job now (task_job t.task_id w.store) w.jobs)
cancel_task now t TaskStatus.pending w = (record w { store = drop_task t.task_id w.store }, ok true)
cancel_task now t _ w = (w, ok false)

add_affected : ℕ → Bool → World × Result (List ℕ) → World × Result (List ℕ)
add_affected id hit (w, err e) = (w, err e)
add_affected id hit (w, ok ids) = (w, ok (if hit then id ∷ ids else ids))

unfoldable pub cancel_tasks : ℕ → List PlannedTask → World → World × Result (List ℕ)
unfolding add_affected
cancel_tasks now [] w = (w, ok [])
cancel_tasks now (t ∷ ts) w =
    let first = cancel_task now t t.status w in
    let rest = cancel_tasks now ts first.0 in
    elim first.1 [ err e ↦ (first.0, err e) | ok hit ↦ add_affected t.task_id hit rest ]

cancel_ended : ℕ → Order → World × Result (List ℕ) → World × Result (Unit {0})
cancel_ended id o (w, err e) = (w, err e)
cancel_ended id o (w, ok affected) = (
  record w { store = log id "cancel" affected o (set_goal_status id GoalStatus.cancelled w.store) },
  ok tt,
)

cancel_goal_in : ℕ → GoalStatus → Order → World → World × Result (Unit {0})
unfolding cancel_ended
cancel_goal_in id GoalStatus.cancelled o w = (w, ok tt)
cancel_goal_in id GoalStatus.complete o w = (w, err value_error)
cancel_goal_in id GoalStatus.failed o w = (w, err value_error)
cancel_goal_in id _ o w = cancel_ended id o (cancel_tasks o.now (get_tasks id w.store) w)

-- `cancel`
unfoldable pub cancel_goal : ℕ → Order → World → World × Result (Unit {0})
unfolding cancel_goal_in
cancel_goal id o w = elim (get_goal id w.store) [
  | none ↦ (w, err key_error)
  | some g ↦ cancel_goal_in id g.status o w
]
