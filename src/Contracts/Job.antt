-- ===== src/Contracts/Job.antt =====
-- core/contracts/jobs.py: the durable-execution records with the checks of their validators, and
-- the table of job transitions. Times are microseconds since the epoch, in UTC.
mod Transitions
unfoldable pub use Transitions.*
use galaxz.Prelude.{
  ℕ, ◌≤◌, String, ◌≡◌, Bool, true, false, not, ◌&&◌, ◌||◌, Option, none, some, List, [], ◌∷◌, ltb,
  leb, ◌==◌, is_some, is_none, Result, ok, err, guard, value_error, ◌>>=◌, ◌>>◌, if◌then◌else◌,
}
use galaxz.Prelude.Int.{ℤ, pos, negsuc, le_ℤ}
use galaxz.Prelude.Text.{strip, str_eq}
use galaxz.Contracts.Job.Transitions.{JobStatus, AttemptOutcome}

pub record RetryPolicy : Type 0 where
  pub max_attempts : ℕ
  pub backoff_seconds : ℕ  -- microseconds
  pub max_backoff_seconds : ℕ  -- microseconds
  pub retryable_outcomes : List String

abbrev pub default_retry_policy : RetryPolicy
default_retry_policy = record {
  max_attempts = 3;
  backoff_seconds = 1_000_000;
  max_backoff_seconds = 60_000_000;
  retryable_outcomes = "timeout" ∷ "transient" ∷ "worker_lost" ∷ [];
}

-- `ge=1` of `max_attempts`, and `validate_backoff`
unfoldable pub validate_policy : RetryPolicy → Result RetryPolicy
validate_policy p = do
  guard (leb 1 p.max_attempts) value_error
  guard (not (ltb p.max_backoff_seconds p.backoff_seconds)) value_error
  ok p

pub record Job : Type 0 where
  pub job_id : ℕ
  pub task_id : ℕ
  pub status : JobStatus
  pub priority : ℤ
  pub idempotency_key : String
  pub retry_policy : RetryPolicy
  pub created_at : ℕ
  pub updated_at : ℕ
  pub available_at : ℕ
  pub cancellation_requested_at : Option ℕ
  pub cancelled_at : Option ℕ

abbrev pub is_cancelled : JobStatus → Bool
is_cancelled JobStatus.cancelled = true
is_cancelled _ = false

-- the bounds of `priority`, `validate_idempotency_key` and `validate_cancellation`
unfoldable pub validate_job : Job → Result Job
validate_job j =
    let key = strip j.idempotency_key in
    do
      guard (le_ℤ (negsuc 99) j.priority && le_ℤ j.priority (pos 100)) value_error
      guard (not (str_eq key "")) value_error
      guard (not (is_some j.cancelled_at && not (is_cancelled j.status))) value_error
      guard (not (is_cancelled j.status && is_none j.cancelled_at)) value_error
      ok (record j { idempotency_key = key })

pub record ExecutionAttempt : Type 0 where
  pub attempt_id : ℕ
  pub job_id : ℕ
  pub attempt_number : ℕ
  pub worker_id : String
  pub input_ref : ℕ  -- the task of the text "task:…"
  pub lease_token : ℕ
  pub lease_expires_at : ℕ
  pub started_at : ℕ
  pub ended_at : Option ℕ
  pub outcome : Option AttemptOutcome
  pub failure_kind : Option String
  pub error_code : Option String
  pub error : Option String
  pub output_ref : Option String

abbrev is_failed : Option AttemptOutcome → Bool
is_failed (some AttemptOutcome.failed) = true
is_failed _ = false

abbrev pub is_completed : Option AttemptOutcome → Bool
is_completed (some AttemptOutcome.completed) = true
is_completed _ = false

abbrev ends_before : Option ℕ → ℕ → Bool
ends_before none start = false
ends_before (some e) start = ltb e start

-- `ge=1` of `attempt_number`, `validate_worker_id` and `validate_terminal_fields`
unfoldable pub validate_attempt : ExecutionAttempt → Result ExecutionAttempt
validate_attempt a =
    let worker = strip a.worker_id in
    do
      guard (leb 1 a.attempt_number) value_error
      guard (not (str_eq worker "")) value_error
      guard (is_none a.ended_at && is_none a.outcome || is_some a.ended_at && is_some a.outcome)
          value_error
      guard (is_none a.error || is_failed a.outcome) value_error
      guard (is_none a.failure_kind && is_none a.error_code || is_failed a.outcome) value_error
      guard (is_none a.output_ref || is_completed a.outcome) value_error
      guard (ltb a.started_at a.lease_expires_at) value_error
      guard (not (ends_before a.ended_at a.started_at)) value_error
      ok (record a { worker_id = worker })
