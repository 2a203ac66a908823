-- ===== src/Goals/Keys.antt =====
-- The texts that core/goals/coordinator.py makes of identifiers: keys of jobs and origins of tasks.
use Prim.Native.String.{String, ◌++◌}
use galaxz.Prelude.{ℕ}
use galaxz.Prelude.Text.Uuid.{uuid_text}
use galaxz.Prelude.Text.Decimal.{decimal_text}

-- `key`
unfoldable pub key : ℕ → ℕ → String
key goal_id task_id = "goal:" ++ (uuid_text goal_id ++ (":task:" ++ uuid_text task_id))

unfoldable pub goal_origin : ℕ → String
goal_origin goal_id = "goal:" ++ uuid_text goal_id

unfoldable pub rerun_key : ℕ → ℕ → ℕ → String
rerun_key goal_id task_id run_number = key goal_id task_id ++ (":rerun:" ++ decimal_text run_number)
