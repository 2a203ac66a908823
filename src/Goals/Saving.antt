-- ===== src/Goals/Saving.antt =====
-- `save_plan`, the repository bindings and `goal_tree` of core/goals/store.py. The INSERTs of
-- `save_plan` open a transaction that an exception leaves open: the connection goes on to see what was
-- inserted, and the next `commit` of any call keeps it.
pub mod Inserted
pub mod Partial
pub mod Stored
use galaxz.Prelude.{
  ℕ, suc, ◌+◌, String, Bool, true, false, not, Option, none, some, List, [], ◌∷◌, ◌++◌, map, ltb,
  ◌==◌, is_none, Result, ok, err, require, integrity_error, key_error, ◌>>=◌, if◌then◌else◌,
}
use galaxz.Prelude.Table.{find, find_by, modify, select}
use galaxz.Contracts.Json.{Json}
use galaxz.Goals.Plan.{PlannedTask, PlannedRow, ProjectNode, ProjectRow, project_key, row_key}
use galaxz.Goals.Store.{Goal, GoalStatus, GoalDb, Binding, goal_key, get_goal, get_tasks, task_job}

unfoldable pub project_row : ℕ → ProjectNode → ProjectRow
project_row i p = record { project = p; ordinal = i }

-- a new row, and the error of its key
unfoldable pub insert_project : ℕ → ProjectNode → GoalDb → GoalDb × Result (Unit {0})
unfolding project_row
insert_project i p db =
    if is_none (find project_key p.project_id db.projects)
    then (record db { projects = db.projects ++ project_row i p ∷ [] }, ok tt)
    else (db, err integrity_error)

unfoldable pub planned_row : ℕ → PlannedTask → PlannedRow
planned_row i t = record { task = t; job_id = none; resolved_payload = none; ordinal = i }

unfoldable pub insert_planned : ℕ → PlannedTask → GoalDb → GoalDb × Result (Unit {0})
unfolding planned_row
insert_planned i t db =
    if is_none (find row_key t.task_id db.rows)
    then (record db { rows = db.rows ++ planned_row i t ∷ [] }, ok tt)
    else (db, err integrity_error)

-- an exception ends the loop, and keeps what the statements before it did
abbrev pub and_then :
    GoalDb × Result (Unit {0}) → (GoalDb → GoalDb × Result (Unit {0})) → GoalDb × Result (Unit {0})
and_then (db, err e) rest = (db, err e)
and_then (db, ok u) rest = rest db

unfoldable pub insert_projects : ℕ → List ProjectNode → GoalDb → GoalDb × Result (Unit {0})
unfolding insert_project
insert_projects i [] db = (db, ok tt)
insert_projects i (p ∷ ps) db =
    and_then (insert_project i p db) (λ next. insert_projects (i + 1) ps next)

unfoldable pub insert_tasks : ℕ → List PlannedTask → GoalDb → GoalDb × Result (Unit {0})
unfolding insert_planned
insert_tasks i [] db = (db, ok tt)
insert_tasks i (t ∷ ts) db = and_then (insert_planned i t db) (λ next. insert_tasks (i + 1) ts next)

unfoldable pub planned_goal : ℕ → Bool → Goal → Goal
planned_goal plan_confidence gated g = record g {
  plan_confidence = some plan_confidence;
  status = if gated then GoalStatus.paused else GoalStatus.ready;
}

unfoldable pub save_goal : ℕ → ℕ → Bool → GoalDb → GoalDb × Result (Unit {0})
unfolding planned_goal
save_goal id plan_confidence gated db =
    (record db { goals = modify goal_key id (planned_goal plan_confidence gated) db.goals }, ok tt)

unfoldable pub save_plan :
    ℕ → List ProjectNode → List PlannedTask → ℕ → Bool → GoalDb → GoalDb × Result (Unit {0})
unfolding insert_projects insert_tasks save_goal
save_plan id projects tasks plan_confidence gated db =
    and_then (and_then (insert_projects 0 projects db) (insert_tasks 0 tasks))
      (save_goal id plan_confidence gated)

-- `INSERT OR REPLACE`
unfoldable pub bind_repository : Binding → GoalDb → GoalDb
bind_repository b db = record db {
  bindings = select (λ (c : Binding). not (c.goal_id == b.goal_id)) db.bindings ++ b ∷ [];
}

unfoldable pub repository_binding : ℕ → GoalDb → Option Binding
repository_binding id db = find (λ (b : Binding). b.goal_id) id db.bindings

-- what `goal_tree` shows of a task
pub record TaskView : Type 0 where
  pub task : PlannedTask
  pub job_id : Option ℕ
  pub resolved_payload : Option Json

pub record ProjectView : Type 0 where
  pub project : ProjectNode
  pub tasks : List TaskView

pub record GoalTree : Type 0 where
  pub goal : Goal
  pub projects : List ProjectView

view_task : PlannedTask → GoalDb → Result TaskView
view_task t db = do
  r ← require (find row_key t.task_id db.rows) key_error
  ok (record { task = t; job_id = r.job_id; resolved_payload = r.resolved_payload })

view_tasks : List PlannedTask → GoalDb → Result (List TaskView)
unfolding view_task
view_tasks [] db = ok []
view_tasks (t ∷ ts) db = do v ← view_task t db; vs ← view_tasks ts db; ok (v ∷ vs)

insert_project_row : ProjectRow → List ProjectRow → List ProjectRow
insert_project_row r [] = r ∷ []
insert_project_row r (q ∷ rows) =
    let rest = insert_project_row r rows in
    if ltb q.ordinal r.ordinal then q ∷ rest else r ∷ q ∷ rows

projects_by_ordinal : List ProjectRow → List ProjectRow
unfolding insert_project_row
projects_by_ordinal [] = []
projects_by_ordinal (r ∷ rows) = insert_project_row r (projects_by_ordinal rows)

-- `tasks_by_project.get(project_id, [])`
view_project : List TaskView → ProjectRow → ProjectView
view_project views r = record {
  project = r.project;
  tasks = select (λ (v : TaskView). v.task.project_id == r.project.project_id) views;
}

unfoldable pub goal_tree : ℕ → GoalDb → Result GoalTree
unfolding view_tasks projects_by_ordinal view_project
goal_tree id db = do
  g ← require (get_goal id db) key_error
  views ← view_tasks (get_tasks id db) db
  ok (record {
    goal = g;
    projects =
        map (view_project views)
          (projects_by_ordinal (select (λ (r : ProjectRow). r.project.goal_id == id) db.projects));
  })
