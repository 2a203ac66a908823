-- ===== src/Tests/Coordinator.antt =====
-- The coordinator of goals at concrete inputs.
use Prim.Native.Nat.{max}
use galaxz.Prelude.{
  ℕ, ◌+◌, ◌≤◌, ◌≡◌, ◌≢◌, refl, true, Option, none, some, List, [], ◌∷◌, ◌==◌, arith, if◌then◌else◌,
}
use galaxz.Prelude.Int.{pos}
use galaxz.Prelude.Table.{exists, All, IsKeyed, find, find_by, modify, select}
use galaxz.Contracts.Json.{Json, end, field, get, is_text, obj, str}
use galaxz.Contracts.Job.{validate_job, validate_policy}
use galaxz.Jobs.Store.{
  empty, get_job, get_job_by_idempotency_key, get_result, job_from_row, record_transition, settle,
  transaction,
}
use galaxz.Goals.Plan.{
  PlannedRow, PlannedTask, TaskStatus, row_key, set_blocked, set_status, update_task,
}
use galaxz.Goals.Store.{
  Goal, GoalStatus, by_ordinal, get_goal, get_tasks, record_event, set_goal_status, task_job,
  with_status,
}
use galaxz.Goals.Control.{World, log}
use galaxz.Goals.Diagram.{TaskReaches, plan_of}
use galaxz.Goals.Blocking.{
  block_dependents, block_loop, block_one, block_pass, contains_id, failed_ids, is_behind,
}
use galaxz.Goals.Substitution.{
  by_id, dumps_size, resolve, resolve_payload, resolve_reference, resolve_text, result_of, walk,
}
use galaxz.Goals.Substitution.Isolated.{IsAlike, resolve_payload-isolated}
use galaxz.Goals.Reconcile.Dispatch.{
  Draw, Limits, Texts, all_complete, dispatch, dispatch_task, request, running_tasks, set_running,
  slots, submit, task_contract,
}
use galaxz.Goals.Reconcile.Starts.{IsDone, is_settled, reconcile-starts}
use galaxz.Goals.Reconcile.Slots.{reconcile-IsBounded}
use galaxz.Goals.Reconcile.{advance, all_done, any_open, block_tasks, finish_goal, reconcile}
use galaxz.Prelude.Table.Count.{count}
use galaxz.Prelude.Text.{lstrip, strip}
use galaxz.Prelude.Text.Order.{sorted}
use galaxz.Prelude.Text.Uuid.{uuid_text}
use galaxz.Contracts.Task.{validate_task}
use galaxz.Jobs.Enqueue.{
  policy_of, candidate, has_key, existing_job, insert_task, stored_policy, new_row, insert_job,
  enqueue_body, answer, enqueue,
}
use galaxz.Jobs.Listing.{newest_first, list_jobs}
use galaxz.Goals.Keys.{key, goal_origin, rerun_key}
use galaxz.Goals.Substitution.Reference.{
  drop_prefix, span, ends, match_reference, parse_uuid, split_dots,
}
use galaxz.Goals.Reconcile.Settle.{
  write_task, set_unstarted, set_result, set_failed, verdict, settle_task, settle_tasks,
}

abbrev texts : Texts
texts = record { num_size = λ n. 1; message = λ e. "cannot be resolved" }

abbrev draw : Draw
draw = record { job_id = λ t. t + 100; time = λ t. 5; ended = λ g. 6 }

abbrev limits : Limits
limits = record { per_goal = 1; global = 4 }

abbrev built : Json
built = obj (field "url" (str "ftp://out") end)

abbrev build : PlannedTask
build = record {
  task_id = 1;
  project_id = 7;
  goal_id = 9;
  skill = "s.build";
  payload = obj end;
  depends_on = [];
  status = TaskStatus.complete;
  confidence = some (pos 9);
  result = some built;
  error = none;
}

-- it waits for the first task, and names its result
abbrev ship : PlannedTask
ship = record {
  task_id = 2;
  project_id = 7;
  goal_id = 9;
  skill = "s.ship";
  payload = obj (
      field "from" (str "${{ dependencies.00000000-0000-0000-0000-000000000001.result.url }}") end);
  depends_on = 1 ∷ [];
  status = TaskStatus.pending;
  confidence = none;
  result = none;
  error = none;
}

abbrev row : PlannedTask → PlannedRow
row t = record { task = t; job_id = none; resolved_payload = none; ordinal = t.task_id }

abbrev goal : Goal
goal = record {
  goal_id = 9;
  origin = "cli";
  objective = "ship";
  workspace_root = none;
  confidence_threshold = 7;
  status = GoalStatus.running;
  plan_confidence = none;
  created_at = 1;
}

abbrev world : World
world = record {
  store = record {
    goals = goal ∷ [];
    projects = [];
    rows = row build ∷ row ship ∷ row (record ship { task_id = 3 }) ∷ [];
    events = [];
    bindings = [];
  };
  jobs = empty;
}

-- opening this runs the coordinator
coordinator_program : Unit {0}
unfolding exists find_by select find modify count lstrip strip uuid_text get is_text validate_task
    validate_policy validate_job record_transition job_from_row get_job get_job_by_idempotency_key
    get_result settle transaction sorted stored_policy policy_of candidate has_key existing_job
    insert_task new_row insert_job enqueue_body answer enqueue newest_first list_jobs set_status
    set_blocked update_task get_goal with_status set_goal_status by_ordinal get_tasks task_job
    record_event contains_id failed_ids is_behind block_one block_pass block_loop block_dependents
    log key goal_origin rerun_key by_id result_of walk resolve_reference resolve_text
    resolve_payload resolve dumps_size drop_prefix span ends match_reference parse_uuid split_dots
    write_task set_unstarted set_result set_failed verdict settle_task settle_tasks set_running
    all_complete task_contract request submit dispatch_task dispatch running_tasks slots block_tasks
    all_done any_open finish_goal advance reconcile
coordinator_program = tt

world-IsKeyed : IsKeyed row_key world.store.rows
unfolding find
world-IsKeyed = (refl, (refl, (refl, tt)))

ship_there : find row_key 2 world.store.rows ≡ some (row ship)
unfolding find
ship_there = refl

statuses : List PlannedTask → List TaskStatus
statuses [] = []
statuses (t ∷ ts) = t.status ∷ statuses ts

payload_of : Option PlannedRow → Option Json
payload_of none = none
payload_of (some r) = r.resolved_payload

-- one slot: the second task starts, the third still waits
reconciled :
    statuses (get_tasks 9 (reconcile texts limits draw 9 world).0.store)
    ≡ TaskStatus.complete ∷ TaskStatus.running ∷ TaskStatus.pending ∷ []
unfolding coordinator_program statuses
reconciled = refl

sends_the_result :
    payload_of (find row_key 2 (reconcile texts limits draw 9 world).0.store.rows)
    ≡ some (obj (field "from" (str "ftp://out") end))
unfolding coordinator_program payload_of
sends_the_result = refl

reconcile-starts_example :
    (r' : PlannedRow) × (find row_key 2 (reconcile texts limits draw 9 world).0.store.rows
      ≡ some r')
    × (plan_of r' ≡ plan_of (row ship))
    × TaskReaches TaskStatus.pending r'.task.status
    × (is_settled TaskStatus.pending ≡ true → r'.task.status ≡ TaskStatus.pending)
    × (TaskStatus.pending ≢ TaskStatus.running
        → r'.task.status ≡ TaskStatus.running
        → All (λ j. IsDone (reconcile texts limits draw 9 world).0.store.rows j) (1 ∷ [])
          × (job : ℕ) × (r'.job_id ≡ some job))
reconcile-starts_example =
    reconcile-starts texts limits draw 9 world 2 (row ship) world-IsKeyed ship_there

reconcile-IsBounded_example :
    running_tasks (get_tasks 9 (reconcile texts limits draw 9 world).0.store)
    ≤ max (running_tasks (get_tasks 9 world.store)) 1
reconcile-IsBounded_example = reconcile-IsBounded texts limits draw 9 world world-IsKeyed

-- the tasks of the goal, and the same without the one that is not a dependency
abbrev known : ℕ → Option PlannedTask
known k = if k == 1 then some build else if k == 5 then some build else none

abbrev fewer : ℕ → Option PlannedTask
fewer k = if k == 1 then some build else none

alike : IsAlike (1 ∷ []) known fewer
unfolding contains_id result_of
alike k listed = ground arith

resolve_payload-isolated_example :
    resolve_payload (λ n. 1) 65_536 ship known ≡ resolve_payload (λ n. 1) 65_536 ship fewer
resolve_payload-isolated_example = resolve_payload-isolated (λ n. 1) 65_536 ship known fewer alike
