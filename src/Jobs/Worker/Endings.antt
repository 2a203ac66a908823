-- ===== src/Jobs/Worker/Endings.antt =====
-- On `_execute` of core/jobs/worker.py: what the end that it logs says of the tables.
use galaxz.Prelude.{ℕ, ◌≡◌, ◌⊎◌, String, Bool, true, false, some}
use galaxz.Contracts.Json.{Json}
use galaxz.Contracts.Job.{Job, JobStatus}
use galaxz.Jobs.Store.{JobRow, Db, find_job, find_output}
use galaxz.Jobs.Finish.{has_result}
use galaxz.Jobs.Failed.{IsFailed}
use galaxz.Jobs.Worker.{Held, Executed, Ending}
use galaxz.Jobs.Worker.Executions.{failure_of}

abbrev pub is_transient : Executed → Bool
is_transient (Executed.transient text code) = true
is_transient _ = false

abbrev pub code_of : Executed → String
code_of (Executed.transient text code) = code
code_of _ = "permanent"

-- The executor returned the result that is stored, without a cancellation, and the job is completed.
pub record IsDone (h : Held) (x : Executed) (token : Bool) (d : Db) : Type 0 where
  pub result : Json
  pub returned : x ≡ Executed.returned result
  pub uncancelled : token ≡ false
  pub row : JobRow
  pub found : find_job h.job_id d ≡ some row
  pub status : row.status ≡ JobStatus.completed
  pub stored : has_result (find_output h.job_id d) result ≡ true

-- The failure was reported under a live lease, and may be retried exactly if the executor said so.
pub record IsReported (h : Held) (x : Executed) (d : Db) : Type 0 where
  pub text : String
  pub now : ℕ
  pub found_in : Db
  pub effect : IsFailed (failure_of h text (code_of x) (is_transient x)) now found_in d

-- what an ending says of the tables `d` that the execution leaves, where the executor left `before`
abbrev pub Means : Held → Executed → Bool → Db → Ending → Db → Type 0
Means h x token before Ending.completed d = IsDone h x token d
Means h x token before Ending.cancelled d =
    (d ≡ before) × ((x ≡ Executed.cancelled) ⊎ (token ≡ true))
Means h x token before Ending.failed d = IsReported h x d
Means h x token before _ d = Unit
