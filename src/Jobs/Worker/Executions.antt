-- ===== src/Jobs/Worker/Executions.antt =====
-- On `_execute` of core/jobs/worker.py and the tables.
use Prim.Native.String.{◌++◌}
use galaxz.Prelude.{
  ◌⊎◌, ℕ, ◌≡◌, refl, inl, inr, String, Bool, true, false, some, Result, ok, err, Error, Bool-cases,
}
use galaxz.Prelude.Text.Uuid.{uuid_text}
use galaxz.Contracts.Json.{Json}
use galaxz.Contracts.Task.{TaskContract}
use galaxz.Contracts.Job.{Job}
use galaxz.Jobs.Store.{Db, get_task}
use galaxz.Jobs.Finish.{Completion, complete}
use galaxz.Jobs.Failure.{Failure}
use galaxz.Jobs.Stale.{IsStale, failure_stale, complete_stale}
use galaxz.Jobs.Worker.{
  Held, Executed, Schedule, is_late, report_failure, after_complete, finish_execution, execute,
}

-- the call that a failure is reported by
abbrev pub failure_of : Held → String → String → Bool → Failure
failure_of h text code again = record {
  job_id = h.job_id;
  lease_token = h.lease_token;
  error = text;
  error_code = code;
  failure_kind = "execution";
  retryable = again;
}

abbrev pub done_of : Held → Json → Completion
done_of h result = record {
  job_id = h.job_id;
  lease_token = h.lease_token;
  output_ref = "job-output:" ++ uuid_text h.job_id;
  result = some result;
}

module _ (message : Error → String) (h : Held) where
  stale_failure :
      (text code : String) (again : Bool) (now : ℕ) (db : Db)
      → IsStale db h.job_id h.lease_token now
      → (report_failure h text code again now db).0 ≡ db
  unfolding report_failure
  stale_failure text code again now db stale =
      (failure_stale db (failure_of h text code again) now stale).0

  module _ (t : Schedule) where
    -- where `complete` was refused and the failure is reported
    IsUnheld : Db → Type 0
    IsUnheld db = IsStale (t.after_refusal db) h.job_id h.lease_token t.reported

    -- the tables that the others have made of `db`
    abbrev pub IsTheirs : Db → Db → Type 0
    IsTheirs db d = (d ≡ db) ⊎ (d ≡ t.after_refusal db)

    stale_complete :
        (db : Db) (p : Db × Result Job)
        → p.0 ≡ db
        → IsUnheld db
        → IsTheirs db (after_complete message h t p).0
    unfolding after_complete IsUnheld
    stale_complete db (d, ok j) same unheld = inl same
    stale_complete db (d, err e) same unheld = elim (Bool-cases (is_late e)) [
      | inl late ↦ inl (rw late same)
      | inr other ↦
          let sent = stale_failure (message e) "permanent" false t.reported _ unheld in
          inr (rw (other, same) sent)
    ]

    stale_finish :
        (x : Executed) (token : Bool) (db : Db)
        → IsStale db h.job_id h.lease_token t.ended
        → IsUnheld db
        → IsTheirs db (finish_execution message h x token t db).0
    unfolding finish_execution
    stale_finish (Executed.returned result) true db stale unheld = inl refl
    stale_finish (Executed.returned result) false db stale unheld =
        stale_complete db (complete (done_of h result) t.ended db)
          (complete_stale db (done_of h result) t.ended stale).0 unheld
    stale_finish Executed.cancelled token db stale unheld = inl refl
    stale_finish (Executed.transient text code) token db stale unheld =
        inl (stale_failure text code true t.ended db stale)
    stale_finish Executed.refused token db stale unheld = inl refl
    stale_finish (Executed.raised text) token db stale unheld =
        inl (stale_failure text "permanent" false t.ended db stale)

    -- Whatever the executor made of a task, if its worker has no live lease on the job when the
    -- executor ends, nor when a refused completion is reported, the execution leaves the tables as the
    -- other callers have made them.
    pub execute-stale :
        (x : Executed) (token : Bool) (db : Db) (task : TaskContract)
        → get_task h.job_id db ≡ some task
        → IsStale (t.while_running db) h.job_id h.lease_token t.ended
        → IsStale (t.after_refusal (t.while_running db)) h.job_id h.lease_token t.reported
        → IsTheirs (t.while_running db) (execute message h x token t db).0
    unfolding execute IsUnheld
    execute-stale x token db task there stale unheld =
        rw (there, execute) (stale_finish x token (t.while_running db) stale unheld)
