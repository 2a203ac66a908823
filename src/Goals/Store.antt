-- ===== src/Goals/Store.antt =====
-- The tables of core/goals/store.py and the operations of `GoalStore` that the coordinator uses.
use galaxz.Prelude.{
  ℕ, String, Bool, true, false, Option, none, some, List, [], ◌∷◌, ◌++◌, map, ltb, leb, ◌==◌,
  is_none, Result, ok, guard, require, integrity_error, key_error, ◌>>=◌, ◌>>◌, if◌then◌else◌,
}
use galaxz.Prelude.Table.{find, modify, select}
use galaxz.Goals.Plan.{PlannedTask, PlannedRow, ProjectRow, row_key}

-- `GoalStatus`
pub data GoalStatus : Type 0 where
  planning ready running paused complete failed cancelled : GoalStatus

pub record Goal : Type 0 where
  pub goal_id : ℕ
  pub origin : String
  pub objective : String
  pub workspace_root : Option String
  pub confidence_threshold : ℕ  -- fixed-point
  pub status : GoalStatus
  pub plan_confidence : Option ℕ
  pub created_at : ℕ

pub record GoalEvent : Type 0 where
  pub goal_id : ℕ
  pub actor : String
  pub action : String
  pub reason : Option String
  pub affected : List ℕ
  pub created_at : ℕ

-- a row of `goal_repositories`
pub record Binding : Type 0 where
  pub goal_id : ℕ
  pub repository_id : String
  pub base_revision : String
  pub base_commit_sha : String
  pub recorded_at : ℕ

pub record GoalDb : Type 0 where
  pub goals : List Goal
  pub projects : List ProjectRow
  pub rows : List PlannedRow
  pub events : List GoalEvent
  pub bindings : List Binding

abbrev pub goal_key : Goal → ℕ
goal_key g = g.goal_id

unfoldable pub create_goal : Goal → GoalDb → Result GoalDb
create_goal g db = do
  guard (is_none (find goal_key g.goal_id db.goals)) integrity_error
  ok (record db { goals = db.goals ++ g ∷ [] })

unfoldable pub get_goal : ℕ → GoalDb → Option Goal
get_goal id db = find goal_key id db.goals

-- `ORDER BY created_at DESC, rowid DESC`: the rows come in the order of insertion
insert_goal : Goal → List Goal → List Goal
insert_goal g [] = g ∷ []
insert_goal g (h ∷ gs) =
    let rest = insert_goal g gs in if leb g.created_at h.created_at then h ∷ rest else g ∷ h ∷ gs

unfoldable pub list_goals : List Goal → List Goal
unfolding insert_goal
list_goals [] = []
list_goals (g ∷ gs) = insert_goal g (list_goals gs)

abbrev pub is_active : GoalStatus → Bool
is_active GoalStatus.ready = true
is_active GoalStatus.running = true
is_active GoalStatus.paused = true
is_active _ = false

unfoldable pub list_active_goals : GoalDb → List Goal
list_active_goals db = select (λ (g : Goal). is_active g.status) (list_goals db.goals)

unfoldable pub with_status : GoalStatus → Goal → Goal
with_status status g = record g { status = status }

unfoldable pub set_goal_status : ℕ → GoalStatus → GoalDb → GoalDb
set_goal_status id status db = record db {
  goals = modify goal_key id (with_status status) db.goals;
}

abbrev pub is_startable : GoalStatus → Bool
is_startable GoalStatus.ready = true
is_startable GoalStatus.paused = true
is_startable _ = false

unfoldable pub claimed_goal : ℕ → Option Goal → GoalDb → GoalDb × Bool
claimed_goal id none db = (db, false)
claimed_goal id (some g) db =
    if is_startable g.status then (set_goal_status id GoalStatus.running db, true) else (db, false)

-- `try_claim`
unfoldable pub try_claim : ℕ → GoalDb → GoalDb × Bool
unfolding claimed_goal
try_claim id db = claimed_goal id (get_goal id db) db

unfoldable pub insert_row : PlannedRow → List PlannedRow → List PlannedRow
insert_row r [] = r ∷ []
insert_row r (q ∷ rows) =
    let rest = insert_row r rows in if ltb q.ordinal r.ordinal then q ∷ rest else r ∷ q ∷ rows

-- `ORDER BY ordinal`
unfoldable pub by_ordinal : List PlannedRow → List PlannedRow
unfolding insert_row
by_ordinal [] = []
by_ordinal (r ∷ rows) = insert_row r (by_ordinal rows)

unfoldable pub get_tasks : ℕ → GoalDb → List PlannedTask
get_tasks id db =
    map (λ (r : PlannedRow). r.task)
      (by_ordinal (select (λ (r : PlannedRow). r.task.goal_id == id) db.rows))

-- the `job_id` of `task_execution`
unfoldable pub task_job : ℕ → GoalDb → Result (Option ℕ)
task_job id db = do r ← require (find row_key id db.rows) key_error; ok r.job_id

unfoldable pub record_event : GoalEvent → GoalDb → GoalDb
record_event e db = record db { events = db.events ++ e ∷ [] }

unfoldable pub events : ℕ → GoalDb → List GoalEvent
events id db = select (λ (e : GoalEvent). e.goal_id == id) db.events
