-- ===== src/Tests/Drives.antt =====
-- Runs of goals at a concrete input.
use galaxz.Prelude.{ℕ, ◌≡◌, refl, none, some, List, [], ◌∷◌, map, Result, ok}
use galaxz.Prelude.Int.{pos}
use galaxz.Prelude.Table.{find, modify, select, exists, IsKeyed}
use galaxz.Prelude.Table.Count.{count}
use galaxz.Prelude.Text.{strip}
use galaxz.Contracts.Json.{Json, Fields, get, is_text}
use galaxz.Contracts.Task.{TaskContract, validate_task}
use galaxz.Goals.Plan.{PlannedTask, PlannedRow, TaskStatus, row_key, set_status, update_task}
use galaxz.Goals.Store.{
  Goal, GoalStatus, get_goal, get_tasks, by_ordinal, set_goal_status, with_status, try_claim,
  claimed_goal,
}
use galaxz.Goals.Keys.{goal_origin}
use galaxz.Prelude.Text.Uuid.{uuid_text}
use galaxz.Goals.Substitution.{by_id}
use galaxz.Goals.Reconcile.Settle.{verdict, write_task}
use galaxz.Goals.Reconcile.Dispatch.{all_complete}
use galaxz.Goals.Runner.{Runner, Fresh, set_answer, ready_tasks, turn, drive, turns, run}
use galaxz.Goals.Runner.Ends.{IsEnded, run-IsEnded}

-- opening this runs a goal
driving_program : Unit {0}
unfolding find modify select exists count strip get is_text validate_task set_status update_task
    get_goal get_tasks by_ordinal set_goal_status with_status try_claim claimed_goal by_id verdict
    write_task all_complete set_answer ready_tasks turn drive turns run
driving_program = tt

abbrev planned : ℕ → List ℕ → PlannedRow
planned id deps = record {
  task = record {
    task_id = id;
    project_id = 1;
    goal_id = 9;
    skill = "s.t";
    payload = Json.null;
    depends_on = deps;
    status = TaskStatus.pending;
    confidence = none;
    result = none;
    error = none;
  };
  job_id = none;
  resolved_payload = none;
  ordinal = id;
}

abbrev goal : Goal
goal = record {
  goal_id = 9;
  origin = "cli";
  objective = "ship";
  workspace_root = none;
  confidence_threshold = 7;
  status = GoalStatus.ready;
  plan_confidence = none;
  created_at = 1;
}

-- 3 comes before the task 4 that it waits for
abbrev runner : Runner
runner = record {
  store = record {
    goals = goal ∷ [];
    projects = [];
    rows = planned 3 (4 ∷ []) ∷ planned 4 [] ∷ [];
    events = [];
    bindings = [];
  };
  reviews = [];
}

abbrev fresh : Fresh
fresh = record { task_id = λ k. k; time = λ k. k }

abbrev answering : ℕ → TaskContract → Result Json
answering confidence c = ok (
    Json.obj (
      Fields.field "status" (Json.str "complete")
        (Fields.field "confidence" (Json.num (pos confidence)) Fields.end)))

statuses : Runner → List TaskStatus
statuses w = map (λ (t : PlannedTask). t.status) (get_tasks 9 w.store)

completes_all :
    statuses (run (answering 8) fresh 9 runner) ≡ TaskStatus.complete ∷ TaskStatus.complete ∷ []
unfolding driving_program statuses goal_origin uuid_text
completes_all = refl

-- the task that the other one waits for is not good enough
stops_early :
    statuses (run (answering 5) fresh 9 runner) ≡ TaskStatus.pending ∷ TaskStatus.escalated ∷ []
unfolding driving_program statuses goal_origin uuid_text
stops_early = refl

runner-IsKeyed : IsKeyed row_key runner.store.rows
unfolding find
runner-IsKeyed = (refl, (refl, tt))

goal_there : get_goal 9 runner.store ≡ some goal
unfolding driving_program
goal_there = refl

run-IsEnded_example : IsEnded 9 goal (run (answering 8) fresh 9 runner)
run-IsEnded_example = run-IsEnded (answering 8) fresh 9 runner goal runner-IsKeyed goal_there refl
