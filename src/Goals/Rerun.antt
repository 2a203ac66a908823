-- ===== src/Goals/Rerun.antt =====
-- `rerun` of core/goals/coordinator.py.
use galaxz.Prelude.{
  ℕ, ◌+◌, Bool, true, false, ◌&&◌, none, some, [], ◌∷◌, Result, ok, err, require, key_error,
  value_error, attribute_error, ◌>>=◌, if◌then◌else◌,
}
use galaxz.Prelude.Text.{str_eq}
use galaxz.Prelude.Table.Count.{count}
use galaxz.Contracts.Json.{Json}
use galaxz.Goals.Plan.{PlannedTask, PlannedRow, TaskStatus}
use galaxz.Goals.Store.{GoalStatus, GoalEvent, GoalDb, get_goal, set_goal_status, get_tasks, events}
use galaxz.Goals.Blocking.{contains_id}
use galaxz.Goals.Control.{World, Order, log}
use galaxz.Goals.Keys.{rerun_key}
use galaxz.Goals.Substitution.{by_id, resolve_payload}
use galaxz.Goals.Reconcile.Dispatch.{Draw, Texts, max_payload_bytes, task_contract, submit}

-- `status="running", error=None, result=None, confidence=None, job_id=…, resolved_payload=…`
unfoldable pub set_rerun : Json → ℕ → PlannedRow → PlannedRow
set_rerun payload job r = record r {
  task = record r.task {
    status = TaskStatus.running;
    error = none;
    result = none;
    confidence = none;
  };
  job_id = some job;
  resolved_payload = some payload;
}

unfoldable pub run_number : ℕ → ℕ → GoalDb → ℕ
run_number goal_id task_id db =
    1
    + count (λ (e : GoalEvent). str_eq e.action "rerun" && contains_id e.affected task_id)
        (events goal_id db)

abbrev can_rerun : TaskStatus → Bool
can_rerun TaskStatus.failed = true
can_rerun TaskStatus.escalated = true
can_rerun TaskStatus.complete = true
can_rerun _ = false

rerun_sent : ℕ → ℕ → Order → World × Result (Unit {0}) → World × Result (Unit {0})
rerun_sent goal_id task_id o (w, err e) = (w, err e)
rerun_sent goal_id task_id o (w, ok u) = (
  record w {
    store =
        log goal_id "rerun" (task_id ∷ []) o (set_goal_status goal_id GoalStatus.running w.store);
  },
  ok tt,
)

rerun_payload : Draw → ℕ → PlannedTask → Order → Result Json → World → World × Result (Unit {0})
unfolding rerun_sent
rerun_payload d goal_id t o (err e) w = (w, err e)
rerun_payload d goal_id t o (ok payload) w = rerun_sent goal_id t.task_id o (
    submit (rerun_key goal_id t.task_id (run_number goal_id t.task_id w.store))
      (do g ← require (get_goal goal_id w.store) attribute_error; task_contract g t payload)
      (set_rerun payload) d w)

unfoldable pub rerun : Texts → Draw → ℕ → ℕ → Order → World → World × Result (Unit {0})
unfolding rerun_payload
rerun x d goal_id task_id o w =
    let deps = by_id (get_tasks goal_id w.store) in
    elim (deps task_id) [
      | none ↦ (w, err key_error)
      | some t ↦
          if can_rerun t.status
          then rerun_payload d goal_id t o (resolve_payload x.num_size max_payload_bytes t deps) w
          else (w, err value_error)
    ]
