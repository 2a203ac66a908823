-- ===== src/Jobs/Heartbeat.antt =====
-- `heartbeat` of core/jobs/repository.py.
use galaxz.Prelude.{ℕ, ◌+◌, ◌==◌, Result, ok, err, value_error, ◌>>=◌, if◌then◌else◌}
use galaxz.Contracts.Job.{ExecutionAttempt, validate_attempt}
use galaxz.Jobs.Store.{JobRow, Db, update_job, update_attempt, transaction}
use galaxz.Jobs.Lease.{live_attempt}

unfoldable pub extend_lease : ℕ → ExecutionAttempt → ExecutionAttempt
extend_lease expiry a = record a { lease_expires_at = expiry }

unfoldable pub touch_row : ℕ → JobRow → JobRow
touch_row now r = record r { updated_at = now }

unfoldable pub heartbeat_body : ℕ → ℕ → ℕ → ℕ → Db → Result (ExecutionAttempt × Db)
heartbeat_body job_id lease_token lease_seconds now db = do
  a ← live_attempt job_id lease_token now db
  ok (
    extend_lease (now + lease_seconds) a,
    update_job job_id (touch_row now)
        (update_attempt a.attempt_id (extend_lease (now + lease_seconds)) db),
  )

unfoldable pub heartbeat : ℕ → ℕ → ℕ → ℕ → Db → Db × Result ExecutionAttempt
heartbeat job_id lease_token lease_seconds now db =
    if lease_seconds == 0
    then (db, err value_error)
    else transaction (heartbeat_body job_id lease_token lease_seconds now)
        (λ a _. validate_attempt a) db
