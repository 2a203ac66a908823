-- ===== src/Goals/Blocking.antt =====
-- The loop of `reconcile` in core/goals/coordinator.py that blocks the tasks behind a lost one.
pub mod Ends
pub mod Least
pub mod Changes
use galaxz.Prelude.{
  ℕ, zero, suc, Bool, true, false, not, ◌&&◌, ◌||◌, Option, none, some, List, [], ◌∷◌, ◌==◌, length,
  if◌then◌else◌,
}
use galaxz.Goals.Plan.{
  PlannedTask, PlannedRow, TaskStatus, is_pending, is_lost, set_blocked, update_task,
}

-- membership in a set of identifiers
unfoldable pub contains_id : List ℕ → ℕ → Bool
contains_id [] k = false
contains_id (j ∷ js) k = j == k || contains_id js k

any_lost : List ℕ → List ℕ → Bool
any_lost failed [] = false
any_lost failed (d ∷ ds) = contains_id failed d || any_lost failed ds

-- `{task.task_id for task in tasks if task.status in (…)}`
unfoldable pub failed_ids : List PlannedTask → List ℕ
failed_ids [] = []
failed_ids (t ∷ ts) =
    let rest = failed_ids ts in if is_lost t.status then t.task_id ∷ rest else rest

-- the test of the loop's body
unfoldable pub is_behind : List ℕ → PlannedTask → Bool
unfolding any_lost
is_behind failed t =
    is_pending t.status && (not (contains_id failed t.task_id) && any_lost failed t.depends_on)

pub record Blocked : Type 0 where
  pub table : List PlannedRow
  pub failed : List ℕ
  pub changed : Bool

unfoldable pub block_one : PlannedTask → Blocked → Blocked
block_one t s =
    if is_behind s.failed t
    then record {
      table = update_task t.task_id set_blocked s.table;
      failed = t.task_id ∷ s.failed;
      changed = true;
    }
    else s

-- `for task in tasks`
unfoldable pub block_pass : List PlannedTask → Blocked → Blocked
block_pass [] s = s
block_pass (t ∷ ts) s = block_pass ts (block_one t s)

-- `while changed`, on fuel; the tasks are those read before the loop
unfoldable pub block_loop : ℕ → List PlannedTask → Blocked → Option Blocked
block_loop zero tasks s = none
block_loop (suc n) tasks s =
    let next = block_pass tasks (record s { changed = false }) in
    let rest = block_loop n tasks next in if next.changed then rest else some next

unfoldable pub block_dependents : List PlannedTask → List PlannedRow → Option Blocked
block_dependents tasks table =
    block_loop (suc (length tasks)) tasks
      (record { table = table; failed = failed_ids tasks; changed = true })
