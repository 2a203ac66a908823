-- ===== src/Goals/Runner.antt =====
-- agents/andromeda/goal_runner.py: a run that drives the tasks of a goal one by one. The router of
-- tasks, the new identifiers and the times of reviews are arguments; a router answers a JSON object or
-- raises.
pub mod Ends
use galaxz.Prelude.{
  ℕ, zero, suc, String, Bool, true, false, Option, none, some, List, [], ◌∷◌, get_or, Result, ok,
  err, attribute_error, ◌>>=◌, if◌then◌else◌,
}
use galaxz.Prelude.Int.{ℤ, pos}
use galaxz.Prelude.Text.Uuid.{uuid_text}
use galaxz.Prelude.Table.{exists}
use galaxz.Prelude.Table.Count.{count}
use galaxz.Contracts.Json.{Json, obj, end, get}
use galaxz.Contracts.Task.{TaskContract, validate_task}
use galaxz.Completion.Reviews.{Review, enqueue_review}
use galaxz.Goals.Plan.{PlannedTask, PlannedRow, TaskStatus, is_pending, set_status}
use galaxz.Goals.Store.{Goal, GoalStatus, GoalDb, get_goal, get_tasks, set_goal_status, try_claim}
use galaxz.Goals.Keys.{goal_origin}
use galaxz.Goals.Substitution.{by_id}
use galaxz.Goals.Reconcile.Settle.{
  Verdict, verdict, write_task, set_refused, set_failed, number, text_or,
}
use galaxz.Goals.Reconcile.Dispatch.{all_complete}

pub record Runner : Type 0 where
  pub store : GoalDb
  pub reviews : List Review

-- a new identifier and a time for each task
pub record Fresh : Type 0 where
  pub task_id : ℕ → ℕ
  pub time : ℕ → ℕ

-- `result.get("result") if isinstance(result.get("result"), dict) else None`
abbrev object_only : Option Json → Option Json
object_only (some (obj fs)) = some (obj fs)
object_only _ = none

-- `status=…, confidence=…, result=…`
unfoldable pub set_answer : TaskStatus → Option ℤ → Option Json → PlannedRow → PlannedRow
set_answer status confidence result r = record r {
  task = record r.task { status = status; confidence = confidence; result = result };
}

-- the pending tasks whose dependencies are complete
unfoldable pub ready_tasks : List PlannedTask → (ℕ → Option PlannedTask) → Result (List PlannedTask)
ready_tasks [] deps = ok []
ready_tasks (t ∷ ts) deps = do
  fits ← if is_pending t.status then all_complete t.depends_on deps else ok false
  rest ← ready_tasks ts deps
  ok (if fits then t ∷ rest else rest)

abbrev waiting : PlannedTask → Bool
waiting t = is_pending t.status

module _ (route : TaskContract → Result Json) (f : Fresh) (id : ℕ) (g : Goal) where
  contract : PlannedTask → TaskContract
  contract t = record {
    task_id = f.task_id t.task_id;
    origin = goal_origin id;
    skill = t.skill;
    payload = t.payload;
    confidence_threshold = g.confidence_threshold;
    workspace_root = g.workspace_root;
  }

  review_for : PlannedTask → Json → Review
  review_for t result = record {
    task_id = uuid_text t.task_id;
    task_type = t.skill;
    skill_id = t.skill;
    agent_id = "";
    agent_output = get_or (object_only (get "result" result)) (obj end);
    sla_deadline = none;
    confidence = get_or (number (get "confidence" result)) (pos 0);
    payload = t.payload;
    status = "pending";
    created_at = f.time t.task_id;
    reviewed_at = none;
    reviewer_notes = none;
    goal_id = some (uuid_text id);
    planned_task_id = none;
    attempt_id = none;
  }

  -- what becomes of a task that was routed, and whether the loop goes on
  settle_answer : PlannedTask → Json → Verdict → Runner → Runner × Result Bool
  unfolding review_for
  settle_answer t result Verdict.accepted w = (
    record w {
      store =
          write_task t.task_id
            (set_answer TaskStatus.complete (number (get "confidence" result))
              (object_only (get "result" result)))
            w.store;
    },
    ok true,
  )
  settle_answer t result Verdict.refused w = (
    record w {
      store = set_goal_status id GoalStatus.failed (
          write_task t.task_id
            (set_refused (number (get "confidence" result))
              (text_or (get "failure_reason" result) (text_or (get "status" result) "")))
            w.store);
    },
    ok false,
  )
  settle_answer t result Verdict.escalated w = (
    record {
      store = set_goal_status id GoalStatus.paused (
          write_task t.task_id
            (set_answer TaskStatus.escalated (number (get "confidence" result))
              (object_only (get "result" result)))
            w.store);
      reviews = enqueue_review (review_for t result) w.reviews;
    },
    ok false,
  )

  settle_routed : PlannedTask → Result Json → Runner → Runner × Result Bool
  unfolding settle_answer
  settle_routed t (err e) w = (w, err e)
  settle_routed t (ok result) w = settle_answer t result (verdict g.confidence_threshold result) w

  route_task : PlannedTask → Runner → Runner × Result Bool
  unfolding contract settle_routed
  route_task t w =
      settle_routed t (do c ← validate_task (contract t); route c)
        (record w { store = write_task t.task_id (set_status TaskStatus.running) w.store })

  turn_ready : Result (List PlannedTask) → Runner → Runner × Result Bool
  unfolding route_task
  turn_ready (err e) w = (w, err e)
  turn_ready (ok []) w =
      (record w { store = set_goal_status id GoalStatus.paused w.store }, ok false)
  turn_ready (ok (t ∷ ts)) w = route_task t w

  turn_tasks : List PlannedTask → Runner → Runner × Result Bool
  unfolding turn_ready
  turn_tasks tasks w =
      if exists waiting tasks
      then turn_ready (ready_tasks tasks (by_id tasks)) w
      else (record w { store = set_goal_status id GoalStatus.complete w.store }, ok false)

  -- one turn of `while True`
  unfoldable pub turn : Runner → Runner × Result Bool
  unfolding turn_tasks
  turn w = turn_tasks (get_tasks id w.store) w

  -- The loop, on fuel; `ok true` is a run that has used it up.
  unfoldable pub drive : ℕ → Runner → Runner × Result Bool
  drive zero w = (w, ok true)
  drive (suc n) w =
      let first = turn w in
      let rest = drive n first.0 in
      elim first.1 [
        | err e ↦ (first.0, err e)
        | ok more ↦ if more then rest else (first.0, ok false)
      ]

module _ (route : TaskContract → Result Json) (f : Fresh) where
  -- one turn for each task that waits, and one more
  unfoldable pub turns : ℕ → GoalDb → ℕ
  turns id db = suc (count waiting (get_tasks id db))

  drive_goal : ℕ → Option Goal → Runner → Runner × Result Bool
  unfolding turns
  drive_goal id none w = (w, err attribute_error)
  drive_goal id (some g) w = drive route f id g (turns id w.store) w

  -- `except Exception`
  caught : ℕ → Runner × Result Bool → Runner
  caught id (w, err e) = record w { store = set_goal_status id GoalStatus.failed w.store }
  caught id (w, ok more) = w

  unfoldable pub run : ℕ → Runner → Runner
  unfolding drive_goal caught
  run id w =
      let claimed = try_claim id w.store in
      if claimed.1
      then caught id (drive_goal id (get_goal id claimed.0) (record w { store = claimed.0 }))
      else w

  -- `resolve_escalated_task`, with the run that it starts
  unfoldable pub resolve_escalated_task : ℕ → ℕ → Bool → Runner → Runner
  resolve_escalated_task id task_id approved w =
      if approved
      then run id (record w { store = write_task task_id (set_status TaskStatus.complete) w.store })
      else record w {
        store =
            set_goal_status id GoalStatus.failed
              (write_task task_id (set_failed "rejected by reviewer") w.store);
      }
