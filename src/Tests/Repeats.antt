-- ===== src/Tests/Repeats.antt =====
-- A repeated request at concrete inputs.
use galaxz.Prelude.{◌≡◌, refl, none, some, ok, [], ◌∷◌, is_none, if◌then◌else◌}
use galaxz.Prelude.Int.{pos}
use galaxz.Prelude.Text.{strip}
use galaxz.Contracts.Job.{JobStatus, Job, RetryPolicy, default_retry_policy, validate_policy}
use galaxz.Jobs.Store.{Db, empty}
use galaxz.Jobs.Enqueue.{Request, policy_of, enqueue, candidate, existing_job}
use galaxz.Jobs.Repeat.Enqueue.{stored_job, enqueue-repeats}
use galaxz.Tests.Jobs.{program, request}

-- outcomes that are not in order
abbrev policy : RetryPolicy
policy = record default_retry_policy { retryable_outcomes = "transient" ∷ "timeout" ∷ [] }

abbrev job_a : Job
job_a = record {
  job_id = 101;
  task_id = 4;
  status = JobStatus.queued;
  priority = pos 4;
  idempotency_key = "a";
  retry_policy = policy;
  created_at = 10;
  updated_at = 10;
  available_at = 10;
  cancellation_requested_at = none;
  cancelled_at = none;
}

abbrev first : Request
first = record (request " a " 4) { retry_policy = some policy }

abbrev after_a : Db
after_a = (enqueue first 10 101 empty).0

enqueue_a : enqueue first 10 101 empty ≡ (after_a, ok job_a)
unfolding program
enqueue_a = refl

policy_valid : validate_policy (policy_of first) ≡ ok (policy_of first)
unfolding program policy_of
policy_valid = refl

abbrev other_job : Job
other_job = record job_a {
  job_id = 909;
  task_id = 9;
  priority = pos 9;
  retry_policy = default_retry_policy;
  created_at = 77;
  updated_at = 77;
  available_at = 77;
}

other_valid : candidate (request "a" 9) 77 909 ≡ ok other_job
unfolding program
other_valid = refl

one_key : strip "a" ≡ strip " a "
unfolding program
one_key = refl

enqueue-repeats_example :
    enqueue (request "a" 9) 77 909 after_a
    ≡ (after_a, ok (if is_none (existing_job (strip " a ") empty) then stored_job job_a else job_a))
enqueue-repeats_example =
    enqueue-repeats first 10 101 empty after_a job_a policy_valid (request "a" 9) 77 909 other_job
      enqueue_a other_valid one_key

-- the second answer differs from the first one
comes_back_sorted :
    (enqueue (request "a" 9) 77 909 after_a).1
    ≡ ok (record job_a {
      retry_policy = record policy { retryable_outcomes = "timeout" ∷ "transient" ∷ [] };
    })
unfolding program
comes_back_sorted = refl
