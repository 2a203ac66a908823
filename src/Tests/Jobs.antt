-- ===== src/Tests/Jobs.antt =====
-- The job repository at concrete inputs.
use galaxz.Prelude.{
  ℕ, String, ◌≡◌, refl, none, some, List, [], ◌∷◌, map, err, true, lease_conflict, is_ok,
}
use galaxz.Prelude.Int.{pos}
use galaxz.Prelude.Text.{strip, contains}
use galaxz.Prelude.Table.{find, find_by, modify, select, exists}
use galaxz.Contracts.Json.{Json, get, truthy, is_text, dumps, json_eq}
use galaxz.Contracts.Job.{
  JobStatus, validate_policy, validate_job, validate_attempt, validate_job_transition,
}
use galaxz.Jobs.Store.{
  JobRow, Db, empty, record_transition, job_from_row, get_job, get_existing_job, with_job,
  transaction,
}
use galaxz.Jobs.Lease.{active_attempt, live_attempt, insert_attempt, clashes}
use galaxz.Jobs.Backoff.{retry_delay}
use galaxz.Jobs.Enqueue.{Request, candidate, existing_job, stored_policy, insert_job, enqueue}
use galaxz.Prelude.Text.Order.{sorted}
use galaxz.Jobs.Claim.{
  claimable, precedes, first_row, next_job, start_row, new_attempt, claim_body, claim,
}
use galaxz.Jobs.Heartbeat.{extend_lease, touch_row, heartbeat_body, heartbeat}
use galaxz.Jobs.Finish.{
  Completion, is_repeat, has_result, end_attempt, complete_row, needs_outbox, store_result,
  finish_running, conflicts, finish_one, finish_body, complete,
}
use galaxz.Jobs.Failure.{
  Failure, should_retry, fail_attempt, release_row, failure_target, failure_reason, failure_row,
  failure_body, record_failure,
}
use galaxz.Jobs.Cancel.{stop_attempt, stop_active, cancel_row, cancel_one, cancel_body, cancel}
use galaxz.Jobs.Reclaim.{
  lease_expired, is_last, reclaim_target, reclaim_row, reclaim_one, reclaim_all, reclaim_body,
  reclaim_expired,
}

-- opening this runs the repository
unfoldable pub program : Unit {0}
unfolding strip contains find find_by modify select exists get truthy is_text dumps json_eq
    validate_policy validate_job validate_attempt validate_job_transition record_transition
    job_from_row get_job get_existing_job with_job transaction active_attempt live_attempt
    insert_attempt clashes retry_delay sorted stored_policy candidate existing_job insert_job
    enqueue claimable precedes first_row next_job start_row new_attempt claim_body claim
    extend_lease touch_row heartbeat_body heartbeat is_repeat has_result end_attempt complete_row
    needs_outbox store_result finish_running conflicts finish_one finish_body complete should_retry
    fail_attempt release_row failure_target failure_reason failure_row failure_body record_failure
    stop_attempt stop_active cancel_row cancel_one cancel_body cancel lease_expired is_last
    reclaim_target reclaim_row reclaim_one reclaim_all reclaim_body reclaim_expired
program = tt

abbrev pub request : String → ℕ → Request
request key n = record {
  task_id = n;
  task = none;
  idempotency_key = key;
  priority = pos n;
  retry_policy = none;
}

abbrev pub queued_two : Db
queued_two = (enqueue (request "b" 5) 11 102 (enqueue (request " a " 4) 10 101 empty).0).0

abbrev pub claimed_b : Db
claimed_b = (claim "w" 30 20 (record { attempt_id = 201; lease_token = 301 }) queued_two).0

abbrev pub done : Completion
done = record { job_id = 102; lease_token = 301; output_ref = "out"; result = some (Json.str "x") }

abbrev pub failed_b : Failure
failed_b = record {
  job_id = 102;
  lease_token = 301;
  error = "boom";
  error_code = "timeout";
  failure_kind = "execution";
  retryable = true;
}

statuses : Db → List JobStatus
statuses db = map (λ (r : JobRow). r.status) db.jobs

-- the job of the higher priority is claimed first
claims : statuses claimed_b ≡ JobStatus.queued ∷ JobStatus.running ∷ []
unfolding program statuses
claims = refl

finishes : statuses (complete done 25 claimed_b).0 ≡ JobStatus.queued ∷ JobStatus.completed ∷ []
unfolding program statuses
finishes = refl

-- at the end of the lease it is too late
too_late : (complete done 50 claimed_b).1 ≡ err lease_conflict
unfolding program
too_late = refl

retries :
    statuses (record_failure failed_b 25 claimed_b).0 ≡ JobStatus.queued ∷ JobStatus.queued ∷ []
unfolding program statuses
retries = refl

reclaims : statuses (reclaim_expired 50 claimed_b).0 ≡ JobStatus.queued ∷ JobStatus.queued ∷ []
unfolding program statuses
reclaims = refl

reclaims_one : is_ok (reclaim_expired 50 claimed_b).1 ≡ true
unfolding program
reclaims_one = refl

cancels : statuses (cancel 102 25 claimed_b).0 ≡ JobStatus.queued ∷ JobStatus.cancelled ∷ []
unfolding program statuses
cancels = refl
