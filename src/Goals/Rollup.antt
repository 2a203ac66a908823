-- ===== src/Goals/Rollup.antt =====
-- `rollup` of core/goals/store.py.
use galaxz.Prelude.{
  ℕ, ◌+◌, ◌≡◌, refl, Bool, true, false, Option, none, some, List, [], ◌∷◌, length, arith,
  if◌then◌else◌,
}
use galaxz.Prelude.Int.{ℤ, lt_ℤ}
use galaxz.Prelude.Table.Count.{count}
use galaxz.Goals.Plan.{PlannedTask, TaskStatus}
use galaxz.Goals.Store.{Goal, GoalStatus, GoalDb, get_goal, get_tasks}

abbrev task_status_eq : TaskStatus → TaskStatus → Bool
task_status_eq TaskStatus.pending TaskStatus.pending = true
task_status_eq TaskStatus.running TaskStatus.running = true
task_status_eq TaskStatus.complete TaskStatus.complete = true
task_status_eq TaskStatus.failed TaskStatus.failed = true
task_status_eq TaskStatus.escalated TaskStatus.escalated = true
task_status_eq TaskStatus.blocked TaskStatus.blocked = true
task_status_eq TaskStatus.cancelled TaskStatus.cancelled = true
task_status_eq _ _ = false

-- `status` is `none` for "unknown"
pub record Rollup : Type 0 where
  pub status : Option GoalStatus
  pub completed : ℕ
  pub total : ℕ
  pub min_confidence : Option ℤ
  pub blocked : ℕ
  pub failed : ℕ
  pub escalated : ℕ
  pub cancelled : ℕ

smaller : Option ℤ → Option ℤ → Option ℤ
smaller none b = b
smaller (some a) none = some a
smaller (some a) (some b) = some (if lt_ℤ b a then b else a)

-- the least confidence of the tasks that have one
unfoldable pub least_confidence : List PlannedTask → Option ℤ
unfolding smaller
least_confidence [] = none
least_confidence (t ∷ ts) = smaller t.confidence (least_confidence ts)

unfoldable pub having : TaskStatus → List PlannedTask → ℕ
having s ts = count (λ (t : PlannedTask). task_status_eq t.status s) ts

unfoldable pub goal_status : Option Goal → Option GoalStatus
goal_status none = none
goal_status (some g) = some g.status

unfoldable pub rollup : ℕ → GoalDb → Rollup
rollup id db =
    let tasks = get_tasks id db in
    record {
      status = goal_status (get_goal id db);
      completed = having TaskStatus.complete tasks;
      total = length tasks;
      min_confidence = least_confidence tasks;
      blocked = having TaskStatus.blocked tasks;
      failed = having TaskStatus.failed tasks;
      escalated = having TaskStatus.escalated tasks;
      cancelled = having TaskStatus.cancelled tasks;
    }

one_status :
    (s : TaskStatus)
    → (if task_status_eq s TaskStatus.complete then 1 else 0)
        + (if task_status_eq s TaskStatus.blocked then 1 else 0)
        + (if task_status_eq s TaskStatus.failed then 1 else 0)
        + (if task_status_eq s TaskStatus.escalated then 1 else 0)
        + (if task_status_eq s TaskStatus.cancelled then 1 else 0)
        + (if task_status_eq s TaskStatus.pending then 1 else 0)
        + (if task_status_eq s TaskStatus.running then 1 else 0)
      ≡ 1
one_status TaskStatus.pending = refl
one_status TaskStatus.running = refl
one_status TaskStatus.complete = refl
one_status TaskStatus.failed = refl
one_status TaskStatus.escalated = refl
one_status TaskStatus.blocked = refl
one_status TaskStatus.cancelled = refl

parts :
    (ts : List PlannedTask)
    → having TaskStatus.complete ts
        + having TaskStatus.blocked ts
        + having TaskStatus.failed ts
        + having TaskStatus.escalated ts
        + having TaskStatus.cancelled ts
        + having TaskStatus.pending ts
        + having TaskStatus.running ts
      ≡ length ts
unfolding having count
parts [] = refl
parts (t ∷ ts) = omega (arith, parts ts, one_status t.status)

-- The counts of a rollup, with the tasks that wait and those that run, make up its total: each task is
-- counted once.
pub rollup-total :
    (id : ℕ) (db : GoalDb)
    → (rollup id db).completed
        + (rollup id db).blocked
        + (rollup id db).failed
        + (rollup id db).escalated
        + (rollup id db).cancelled
        + having TaskStatus.pending (get_tasks id db)
        + having TaskStatus.running (get_tasks id db)
      ≡ (rollup id db).total
unfolding rollup
rollup-total id db = parts (get_tasks id db)
