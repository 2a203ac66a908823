-- ===== src/Goals/Diagram.antt =====
-- The statuses of planned tasks as `reconcile` of core/goals/coordinator.py changes them, and the
-- changes of a row.
use galaxz.Prelude.{ℕ, ◌≡◌, ◌≢◌, refl, sym, ◌∙◌, ◌⊎◌, inl, inr, String, List}
use galaxz.Contracts.Json.{Json}
use galaxz.Goals.Plan.{PlannedTask, PlannedRow, TaskStatus, update_task}
use galaxz.Goals.Rows.{Moves, Shows, KeepsKey, IsPreorder, Moves-same, Moves-update, Shows-update}

pub data TaskMove : TaskStatus → TaskStatus → Type 0 where
  start : TaskMove TaskStatus.pending TaskStatus.running
  refuse : TaskMove TaskStatus.pending TaskStatus.failed
  block : TaskMove TaskStatus.pending TaskStatus.blocked
  reset : TaskMove TaskStatus.running TaskStatus.pending
  finish : TaskMove TaskStatus.running TaskStatus.complete
  fail : TaskMove TaskStatus.running TaskStatus.failed
  escalate : TaskMove TaskStatus.running TaskStatus.escalated

pub data TaskReaches : TaskStatus → TaskStatus → Type 0 where
  here : {s : TaskStatus} → TaskReaches s s
  then : {s t u : TaskStatus} → TaskMove s t → TaskReaches t u → TaskReaches s u

TaskMove-ne : {s t : TaskStatus} → TaskMove s t → s ≢ t
TaskMove-ne start e = cc
TaskMove-ne refuse e = cc
TaskMove-ne block e = cc
TaskMove-ne reset e = cc
TaskMove-ne finish e = cc
TaskMove-ne fail e = cc
TaskMove-ne escalate e = cc

-- what the plan says of a task: all of the row but its status, its outcome and its job
pub record PlanOf : Type 0 where
  pub project_id : ℕ
  pub goal_id : ℕ
  pub skill : String
  pub payload : Json
  pub depends_on : List ℕ
  pub ordinal : ℕ

abbrev pub plan_of : PlannedRow → PlanOf
plan_of r = record {
  project_id = r.task.project_id;
  goal_id = r.task.goal_id;
  skill = r.task.skill;
  payload = r.task.payload;
  depends_on = r.task.depends_on;
  ordinal = r.ordinal;
}

-- The row leaves one status by one move.
pub record Turns (from : TaskStatus) (Extra : PlannedRow → PlannedRow → Type 0) (r r' : PlannedRow)
    : Type 0 where
  pub was : r.task.status ≡ from
  pub moved : TaskMove from r'.task.status
  pub plan : plan_of r' ≡ plan_of r
  pub extra : Extra r r'

abbrev pub Once : TaskStatus → (PlannedRow → PlannedRow → Type 0) → PlannedRow → PlannedRow → Type 0
Once from Extra r r' = (r' ≡ r) ⊎ Turns from Extra r r'

abbrev pub Plain : PlannedRow → PlannedRow → Type 0
Plain r r' = Unit

module _ (from : TaskStatus) (Extra : PlannedRow → PlannedRow → Type 0) where
  Once-joins :
      (r s t : PlannedRow) → Once from Extra r s → Once from Extra s t → Once from Extra r t
  Once-joins r s t (inl e) (inl f) = inl (f ∙ e)
  Once-joins r s t (inl e) (inr q) = inr (rw (← e) q)
  Once-joins r s t (inr p) (inl f) = inr (rw f p)
  Once-joins r s t (inr p) (inr q) = absurd (TaskMove-ne p.moved (sym q.was))

  pub Once-IsPreorder : IsPreorder (Once from Extra)
  Once-IsPreorder = record { stays = λ r. inl refl; joins = Once-joins }

  -- what a turn of a loop does to the rows, for the task that it is about
  pub record Effect (t : PlannedTask) (rows rows' : List PlannedRow) : Type 0 where
    pub moves : Moves (Once from Extra) rows rows'
    pub shows : (u : PlannedTask) → t.task_id ≢ u.task_id → Shows rows u → Shows rows' u

  pub Effect-same : (t : PlannedTask) (rows : List PlannedRow) → Effect t rows rows
  Effect-same t rows = record {
    moves = Moves-same (Once from Extra) Once-IsPreorder rows;
    shows = λ u other h. h;
  }

  pub Effect-update :
      (t : PlannedTask) (f : PlannedRow → PlannedRow) (rows : List PlannedRow)
      → KeepsKey f
      → Shows rows t
      → ((r : PlannedRow) → r.task ≡ t → Turns from Extra r (f r))
      → Effect t rows (update_task t.task_id f rows)
  Effect-update t f rows keeps shows turns = record {
    moves =
        Moves-update (Once from Extra) Once-IsPreorder t f rows keeps shows
          (λ r e. inr (turns r e));
    shows = λ u other h. Shows-update t.task_id f rows u keeps other h;
  }
