-- ===== src/Contracts/Task.antt =====
-- `TaskContract` of core/contracts/contracts.py, with the fields that jobs and goals read. A UUID is
-- a number: its canonical texts are equal, and ordered, as these numbers are.
use galaxz.Prelude.{ℕ, String, Option, not, Result, ok, guard, value_error, ◌>>◌}
use galaxz.Prelude.Text.{strip, str_eq}
use galaxz.Contracts.Json.{Json}

pub record TaskContract : Type 0 where
  pub task_id : ℕ
  pub origin : String
  pub skill : String
  pub payload : Json
  pub confidence_threshold : ℕ  -- fixed-point
  pub workspace_root : Option String

-- `validate_non_empty_str` of the origin and the skill
unfoldable pub validate_task : TaskContract → Result TaskContract
validate_task t =
    let origin = strip t.origin in
    let skill = strip t.skill in
    do
      guard (not (str_eq origin "")) value_error
      guard (not (str_eq skill "")) value_error
      ok (record t { origin = origin; skill = skill })
