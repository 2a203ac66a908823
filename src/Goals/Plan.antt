-- ===== src/Goals/Plan.antt =====
-- The planned tasks of core/contracts/contracts.py and their table in core/goals/store.py.
use galaxz.Prelude.{ℕ, String, Bool, true, false, Option, some, List}
use galaxz.Prelude.Int.{ℤ}
use galaxz.Prelude.Table.{modify}
use galaxz.Contracts.Json.{Json}

-- `PlannedTaskStatus`
pub data TaskStatus : Type 0 where
  pending running complete failed escalated blocked cancelled : TaskStatus

pub record PlannedTask : Type 0 where
  pub task_id : ℕ
  pub project_id : ℕ
  pub goal_id : ℕ
  pub skill : String
  pub payload : Json
  pub depends_on : List ℕ
  pub status : TaskStatus
  pub confidence : Option ℤ  -- fixed-point
  pub result : Option Json
  pub error : Option String

pub record ProjectNode : Type 0 where
  pub project_id : ℕ
  pub goal_id : ℕ
  pub title : String
  pub description : String

-- a row of `projects`
pub record ProjectRow : Type 0 where
  pub project : ProjectNode
  pub ordinal : ℕ

abbrev pub project_key : ProjectRow → ℕ
project_key r = r.project.project_id

abbrev pub task_key : PlannedTask → ℕ
task_key t = t.task_id

abbrev pub is_pending : TaskStatus → Bool
is_pending TaskStatus.pending = true
is_pending _ = false

-- `task.status in ("failed", "blocked", "cancelled")`
abbrev pub is_lost : TaskStatus → Bool
is_lost TaskStatus.failed = true
is_lost TaskStatus.blocked = true
is_lost TaskStatus.cancelled = true
is_lost _ = false

-- a row of `planned_tasks`
pub record PlannedRow : Type 0 where
  pub task : PlannedTask
  pub job_id : Option ℕ
  pub resolved_payload : Option Json
  pub ordinal : ℕ

abbrev pub row_key : PlannedRow → ℕ
row_key r = r.task.task_id

-- `status=…` of `update_task`
unfoldable pub set_status : TaskStatus → PlannedRow → PlannedRow
set_status status r = record r { task = record r.task { status = status } }

-- `status="blocked", error="dependency failed"` of `update_task`
unfoldable pub set_blocked : PlannedRow → PlannedRow
set_blocked r = record r {
  task = record r.task { status = TaskStatus.blocked; error = some "dependency failed" };
}

-- `update_task`
unfoldable pub update_task : ℕ → (PlannedRow → PlannedRow) → List PlannedRow → List PlannedRow
update_task id f rows = modify row_key id f rows
