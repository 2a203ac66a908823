-- ===== src/Goals/Reconcile/Bounds.antt =====
-- On the tasks of a goal that run, as core/goals/coordinator.py counts them, and the loops that start
-- none.
use galaxz.Prelude.{Result-cases, ◌-◌, ◌≤◌, ok, ℕ, ◌≡◌, refl, false, inl, inr, arith}
use galaxz.Jobs.Store.{Db}
use galaxz.Jobs.Listing.{list_jobs}
use galaxz.Goals.Plan.{PlannedTask, TaskStatus}
use galaxz.Goals.Store.{GoalDb, get_tasks}
use galaxz.Goals.Reconcile.Dispatch.Counts.{runs_for, running_rows}
use galaxz.Goals.Reading.Counts.{count-read}
use galaxz.Goals.Rows.{Forgets}
use galaxz.Goals.Diagram.{TaskMove}
use galaxz.Goals.Reconcile.Settle.Changes.{Settled}
use galaxz.Goals.Blocking.Changes.{Stopped}
use galaxz.Goals.Reconcile.Dispatch.{Limits, slots, is_running, running_tasks}

pub running_tasks-rows :
    (id : ℕ) (db : GoalDb) → running_tasks (get_tasks id db) ≡ running_rows id db.rows
unfolding running_tasks
running_tasks-rows id db = count-read (λ (t : PlannedTask). is_running t.status) id db

settled-idle : {s : TaskStatus} → TaskMove TaskStatus.running s → is_running s ≡ false
settled-idle TaskMove.reset = refl
settled-idle TaskMove.finish = refl
settled-idle TaskMove.fail = refl
settled-idle TaskMove.escalate = refl

pub Settled-Forgets : (id : ℕ) → Forgets Settled (runs_for id)
Settled-Forgets id r r' (inl e) passes = rw (← e) passes
Settled-Forgets id r r' (inr turn) passes = absurd (ground (arith, settled-idle turn.moved))

pub Stopped-Forgets : (id : ℕ) → Forgets Stopped (runs_for id)
Stopped-Forgets id r r' (inl e) passes = rw (← e) passes
Stopped-Forgets id r r' (inr turn) passes = absurd (let e = turn.extra in ground arith)

-- the slots of a goal are what its limit leaves
pub slots-le :
    (l : Limits) (id : ℕ) (db : GoalDb) (jobs : Db) (n : ℕ)
    → slots l (get_tasks id db) jobs ≡ ok n
    → n ≤ l.per_goal - running_rows id db.rows
unfolding slots
slots-le l id db jobs n e = elim (Result-cases (list_jobs 500 jobs)) [
  | inr (x, failed) ↦ absurd (ground arith)
  | inl (newest, done) ↦ ground (arith, running_tasks-rows id db)
]
