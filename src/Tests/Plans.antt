-- ===== src/Tests/Plans.antt =====
-- Saved plans at concrete inputs.
use galaxz.Prelude.{ℕ, ◌≡◌, refl, true, none, some, List, [], ◌∷◌, ok, err, integrity_error, ◌==◌}
use galaxz.Prelude.Table.{find, select, modify}
use galaxz.Contracts.Json.{Json}
use galaxz.Goals.Plan.{PlannedTask, TaskStatus, ProjectNode}
use galaxz.Goals.Store.{Goal, GoalStatus, GoalDb, get_goal, get_tasks, by_ordinal}
use galaxz.Goals.Saving.{
  project_row, planned_row, insert_project, insert_planned, insert_projects, insert_tasks,
  planned_goal, save_goal, save_plan,
}
use galaxz.Goals.Saving.Stored.{save_plan-stored}
use galaxz.Goals.Saving.Partial.{IsPartial, save_plan-IsPartial}

-- opening this saves a plan
saving_program : Unit {0}
unfolding find select modify get_goal get_tasks by_ordinal project_row planned_row insert_project
    insert_planned insert_projects insert_tasks planned_goal save_goal save_plan
saving_program = tt

abbrev goal : Goal
goal = record {
  goal_id = 9;
  origin = "cli";
  objective = "ship";
  workspace_root = none;
  confidence_threshold = 7;
  status = GoalStatus.planning;
  plan_confidence = none;
  created_at = 1;
}

abbrev store : GoalDb
store = record { goals = goal ∷ []; projects = []; rows = []; events = []; bindings = [] }

abbrev projects : List ProjectNode
projects = record { project_id = 7; goal_id = 9; title = "core"; description = "" } ∷ []

abbrev planned : ℕ → PlannedTask
planned id = record {
  task_id = id;
  project_id = 7;
  goal_id = 9;
  skill = "s.t";
  payload = Json.null;
  depends_on = [];
  status = TaskStatus.pending;
  confidence = none;
  result = none;
  error = none;
}

abbrev plan : List PlannedTask
plan = planned 4 ∷ planned 2 ∷ []

-- its third task has the identifier of the first
abbrev clashing : List PlannedTask
clashing = planned 4 ∷ planned 2 ∷ planned 4 ∷ planned 8 ∷ []

goal_there : get_goal 9 store ≡ some goal
unfolding saving_program
goal_there = refl

no_tasks : get_tasks 9 store ≡ []
unfolding saving_program
no_tasks = refl

saves : (save_plan 9 projects plan 8 true store).1 ≡ ok tt
unfolding saving_program
saves = refl

save_plan-stored_example :
    (get_tasks 9 (save_plan 9 projects plan 8 true store).0
      ≡ select (λ (t : PlannedTask). t.goal_id == 9) plan)
    × (get_goal 9 (save_plan 9 projects plan 8 true store).0
        ≡ some (record goal { status = GoalStatus.paused; plan_confidence = some 8 }))
save_plan-stored_example =
    save_plan-stored 9 projects plan 8 true store goal goal_there no_tasks saves

clashes : (save_plan 9 projects clashing 8 true store).1 ≡ err integrity_error
unfolding saving_program
clashes = refl

keeps_two : get_tasks 9 (save_plan 9 projects clashing 8 true store).0 ≡ plan
unfolding saving_program
keeps_two = refl

save_plan-IsPartial_example :
    (integrity_error ≡ integrity_error)
    × IsPartial projects clashing store (save_plan 9 projects clashing 8 true store).0
save_plan-IsPartial_example =
    save_plan-IsPartial 9 projects clashing 8 true store integrity_error clashes
