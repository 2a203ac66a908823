-- ===== src/Goals/Reconcile/Settle.antt =====
-- The first loop of `reconcile` in core/goals/coordinator.py: what has become of the jobs of the tasks
-- that run. The results of agents are JSON objects, whose confidence is a number or absent.
pub mod Changes
use galaxz.Prelude.{
  ℕ, String, Bool, true, false, ◌&&◌, ◌||◌, Option, none, some, List, [], ◌∷◌, get_or, Result, ok,
  err, if◌then◌else◌,
}
use galaxz.Prelude.Int.{ℤ, pos, le_ℤ}
use galaxz.Prelude.Text.{str_eq}
use galaxz.Contracts.Json.{Json, num, str, obj, end, get, is_text}
use galaxz.Contracts.Job.{Job, JobStatus}
use galaxz.Jobs.Store.{Db, get_job, get_job_by_idempotency_key, get_result}
use galaxz.Goals.Plan.{PlannedTask, PlannedRow, TaskStatus, update_task}
use galaxz.Goals.Store.{Goal, GoalStatus, GoalDb, set_goal_status, task_job}
use galaxz.Goals.Keys.{key}

-- `update_task` on the tables
unfoldable pub write_task : ℕ → (PlannedRow → PlannedRow) → GoalDb → GoalDb
write_task id f db = record db { rows = update_task id f db.rows }

-- `status="pending", job_id=None`
unfoldable pub set_unstarted : PlannedRow → PlannedRow
set_unstarted r = record r { task = record r.task { status = TaskStatus.pending }; job_id = none }

-- `status=…, confidence=…, result=…`
unfoldable pub set_result : TaskStatus → Option ℤ → Json → PlannedRow → PlannedRow
set_result status confidence result r = record r {
  task = record r.task { status = status; confidence = confidence; result = some result };
}

-- `status="failed", confidence=…, error=…`
unfoldable pub set_refused : Option ℤ → String → PlannedRow → PlannedRow
set_refused confidence error r = record r {
  task = record r.task { status = TaskStatus.failed; confidence = confidence; error = some error };
}

-- `status="failed", error=…`
unfoldable pub set_failed : String → PlannedRow → PlannedRow
set_failed error r = record r {
  task = record r.task { status = TaskStatus.failed; error = some error };
}

abbrev pub number : Option Json → Option ℤ
number (some (num n)) = some n
number _ = none

abbrev pub text_or : Option Json → String → String
text_or (some (str s)) t = if str_eq s "" then t else s
text_or _ t = t

-- `result.get("result") if isinstance(result.get("result"), dict) else result`
abbrev object_or : Option Json → Json → Json
object_or (some (obj fs)) v = obj fs
object_or _ v = v

pub data Verdict : Type 0 where
  accepted refused escalated : Verdict

-- the tests on the result of a completed job
unfoldable pub verdict : ℕ → Json → Verdict
verdict threshold result =
    if is_text "complete" (get "status" result)
      && le_ℤ (pos threshold) (get_or (number (get "confidence" result)) (pos 0))
    then Verdict.accepted
    else if is_text "failed" (get "status" result) || is_text "no_agent_found" (get "status" result)
    then Verdict.refused
    else Verdict.escalated

-- The tables, and whether `reconcile` returns.
settle_verdict : Goal → PlannedTask → Json → Verdict → GoalDb → GoalDb × Bool
settle_verdict g t result Verdict.accepted db = (
  write_task t.task_id
      (set_result TaskStatus.complete (number (get "confidence" result))
        (object_or (get "result" result) result))
      db,
  false,
)
settle_verdict g t result Verdict.refused db = (
  write_task t.task_id
      (set_refused (number (get "confidence" result))
        (text_or (get "failure_reason" result) (text_or (get "status" result) "")))
      db,
  false,
)
settle_verdict g t result Verdict.escalated db = (
  set_goal_status g.goal_id GoalStatus.paused (
      write_task t.task_id
        (set_result TaskStatus.escalated (number (get "confidence" result))
          (object_or (get "result" result) result))
        db),
  true,
)

settle_job : Goal → PlannedTask → Option Json → JobStatus → GoalDb → GoalDb × Bool
unfolding settle_verdict verdict
settle_job g t result JobStatus.completed db =
    let found = get_or result (obj end) in
    settle_verdict g t found (verdict g.confidence_threshold found) db
settle_job g t result JobStatus.failed db = (write_task t.task_id (set_failed "failed") db, false)
settle_job g t result JobStatus.cancelled db =
    (write_task t.task_id (set_failed "cancelled") db, false)
settle_job g t result _ db = (db, false)

-- the job of a task, by its identifier or else by its key
locate : ℕ → ℕ → Result (Option ℕ) → Db → Result (Option Job)
locate goal_id task_id (err e) jobs = err e
locate goal_id task_id (ok (some id)) jobs = get_job id jobs
locate goal_id task_id (ok none) jobs = get_job_by_idempotency_key (key goal_id task_id) jobs

settle_found : Goal → PlannedTask → Result (Option Job) → Db → GoalDb → GoalDb × Result Bool
unfolding settle_job
settle_found g t (err e) jobs db = (db, err e)
settle_found g t (ok none) jobs db = (write_task t.task_id set_unstarted db, ok false)
settle_found g t (ok (some j)) jobs db =
    let settled = settle_job g t (get_result j.job_id jobs) j.status db in (settled.0, ok settled.1)

unfoldable pub settle_task : Goal → Db → PlannedTask → TaskStatus → GoalDb → GoalDb × Result Bool
unfolding locate settle_found
settle_task g jobs t TaskStatus.running db =
    settle_found g t (locate g.goal_id t.task_id (task_job t.task_id db) jobs) jobs db
settle_task g jobs t _ db = (db, ok false)

unfoldable pub settle_tasks : Goal → Db → List PlannedTask → GoalDb → GoalDb × Result Bool
settle_tasks g jobs [] db = (db, ok false)
settle_tasks g jobs (t ∷ ts) db =
    let first = settle_task g jobs t t.status db in
    let rest = settle_tasks g jobs ts first.0 in
    elim first.1 [ err e ↦ (first.0, err e) | ok stop ↦ if stop then (first.0, ok true) else rest ]
