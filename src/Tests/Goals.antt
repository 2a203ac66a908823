-- ===== src/Tests/Goals.antt =====
-- Goals at concrete inputs.
use galaxz.Prelude.{◌+◌, ℕ, ◌≡◌, ◌≢◌, refl, none, some, List, [], ◌∷◌, true, false, ok, map, Option}
use galaxz.Prelude.Table.{All, find, modify, select, IsKeyed}
use galaxz.Contracts.Json.{Json}
use galaxz.Jobs.Store.{empty, get_job}
use galaxz.Goals.Plan.{
  PlannedTask, PlannedRow, TaskStatus, row_key, set_status, set_blocked, update_task,
}
use galaxz.Goals.Blocking.{
  Blocked, contains_id, failed_ids, is_behind, block_one, block_pass, block_loop, block_dependents,
}
use galaxz.Goals.Blocking.Least.{IsLeast, block_dependents-IsLeast}
use galaxz.Goals.Store.{
  Goal, GoalStatus, GoalDb, get_goal, try_claim, claimed_goal, set_goal_status, with_status,
  get_tasks, by_ordinal, task_job, record_event,
}
use galaxz.Goals.Rollup.{having, rollup, rollup-total}
use galaxz.Goals.Claiming.{try_claim-once}
use galaxz.Goals.Control.{World, Order, cancel_goal, cancel_tasks, cancel_task, drop_task, log}
use galaxz.Goals.Control.Cancelled.{IsShut}
use galaxz.Goals.Control.Shut.{cancel_goal-shuts}

-- opening this runs the goals
goals_program : Unit {0}
unfolding find modify select get_job set_status set_blocked update_task contains_id failed_ids
    is_behind block_one block_pass block_loop block_dependents get_goal claimed_goal try_claim
    set_goal_status with_status get_tasks by_ordinal task_job record_event cancel_goal cancel_tasks
    cancel_task drop_task log
goals_program = tt

abbrev planned : ℕ → TaskStatus → List ℕ → PlannedTask
planned id status deps = record {
  task_id = id;
  project_id = 1;
  goal_id = 9;
  skill = "s.t";
  payload = Json.null;
  depends_on = deps;
  status = status;
  confidence = none;
  result = none;
  error = none;
}

abbrev row : PlannedTask → PlannedRow
row t = record { task = t; job_id = none; resolved_payload = none; ordinal = t.task_id }

-- 3 comes before the task 2 that it waits for, and 4 waits for nothing lost
abbrev chain : List PlannedTask
chain =
    planned 1 TaskStatus.failed []
    ∷ planned 3 TaskStatus.pending (2 ∷ [])
    ∷ planned 2 TaskStatus.pending (1 ∷ [])
    ∷ planned 4 TaskStatus.pending []
    ∷ []

ids_of : Option Blocked → List ℕ
ids_of none = []
ids_of (some e) = e.failed

blocks_the_chain : ids_of (block_dependents chain (map row chain)) ≡ 3 ∷ 2 ∷ 1 ∷ []
unfolding goals_program ids_of
blocks_the_chain = refl

block_dependents-IsLeast_example :
    (e : Blocked) × (block_dependents chain (map row chain) ≡ some e)
    × IsLeast chain (failed_ids chain) e
block_dependents-IsLeast_example = block_dependents-IsLeast chain (map row chain)

abbrev goal : Goal
goal = record {
  goal_id = 9;
  origin = "cli";
  objective = "ship";
  workspace_root = none;
  confidence_threshold = 7;
  status = GoalStatus.ready;
  plan_confidence = none;
  created_at = 1;
}

abbrev store : GoalDb
store = record {
  goals = goal ∷ [];
  projects = [];
  rows = map row chain;
  events = [];
  bindings = [];
}

goal_there : get_goal 9 store ≡ some goal
unfolding goals_program
goal_there = refl

try_claim-once_example :
    ((try_claim 9 store).1 ≡ true)
    × ((try_claim 9 store).1 ≡ true
        → (get_goal 9 (try_claim 9 store).0 ≡ some (with_status GoalStatus.running goal))
          × (try_claim 9 (try_claim 9 store).0 ≡ ((try_claim 9 store).0, false)))
try_claim-once_example = try_claim-once 9 store goal goal_there

abbrev world : World
world = record { store = store; jobs = empty }

abbrev order : Order
order = record { actor = "ops"; reason = none; now = 5 }

store-IsKeyed : IsKeyed row_key store.rows
unfolding find
store-IsKeyed = (refl, (refl, (refl, (refl, tt))))

not_cancelled : goal.status ≢ GoalStatus.cancelled
not_cancelled e = cc e

cancels : (cancel_goal 9 order world).1 ≡ ok tt
unfolding goals_program
cancels = refl

cancel_goal-shuts_example :
    All (λ t. IsShut (cancel_goal 9 order world).0.store.rows t) (get_tasks 9 store)
cancel_goal-shuts_example =
    cancel_goal-shuts 9 order world goal store-IsKeyed goal_there not_cancelled cancels

rollup-total_example :
    (rollup 9 store).completed
      + (rollup 9 store).blocked
      + (rollup 9 store).failed
      + (rollup 9 store).escalated
      + (rollup 9 store).cancelled
      + having TaskStatus.pending (get_tasks 9 store)
      + having TaskStatus.running (get_tasks 9 store)
    ≡ (rollup 9 store).total
rollup-total_example = rollup-total 9 store
