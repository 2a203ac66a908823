-- ===== src/Tests/Runs.antt =====
-- The theorems on the job repository at concrete inputs.
use galaxz.Prelude.{
  ℕ, String, ◌≡◌, ◌≤◌, refl, none, some, List, [], ◌∷◌, err, ok, lease_conflict, arith, is_ok,
  false,
}
use galaxz.Prelude.Int.{pos}
use galaxz.Prelude.Table.{find-All}
use galaxz.Contracts.Job.{
  JobStatus, Job, ExecutionAttempt, Reaches, IsTerminal, default_retry_policy,
}
use galaxz.Jobs.Store.{JobRow, empty, find_job, find_attempt}
use galaxz.Jobs.Lease.{live_attempt}
use galaxz.Jobs.Lease.Live.{IsLive-live_attempt}
use galaxz.Jobs.Enqueue.{policy_of}
use galaxz.Jobs.Claim.{Ids, claim}
use galaxz.Jobs.Heartbeat.{heartbeat}
use galaxz.Jobs.Finish.{complete, is_repeat}
use galaxz.Jobs.Failure.{record_failure}
use galaxz.Jobs.Reclaim.{reclaim_expired}
use galaxz.Jobs.Invariant.Consistent.{IsConsistent, job_key}
use galaxz.Jobs.System.{
  Call, perform, perform_all, perform_all-IsConsistent, perform_all-moves, perform_all-one_holder,
}
use galaxz.Jobs.Recovery.{IsRecovered, reclaim_expired-recovers}
use galaxz.Jobs.Stale.{IsStale, stale_worker}
use galaxz.Jobs.Selection.{IsClaimed, claim-IsClaimed}
use galaxz.Jobs.Repeat.Complete.{complete-repeats}
use galaxz.Tests.Jobs.{program, request, queued_two, claimed_b, done, failed_b}

few : (key : String) (n : ℕ) → 1 ≤ (policy_of (request key n)).max_attempts
unfolding policy_of
few key n = ground arith

abbrev ids : Ids
ids = record { attempt_id = 201; lease_token = 301 }

abbrev two_calls : List Call
two_calls =
    Call.enqueued (request " a " 4) 10 101 (few " a " 4)
    ∷ Call.enqueued (request "b" 5) 11 102 (few "b" 5)
    ∷ []

abbrev three_calls : List Call
three_calls =
    Call.enqueued (request " a " 4) 10 101 (few " a " 4)
    ∷ Call.enqueued (request "b" 5) 11 102 (few "b" 5)
    ∷ Call.claimed "w" 30 20 ids
    ∷ []

abbrev more_calls : List Call
more_calls = Call.completed done 25 ∷ Call.cancelled 101 26 ∷ Call.reclaimed 90 ∷ []

pub queued_two-IsConsistent : IsConsistent queued_two
unfolding perform_all perform
queued_two-IsConsistent = perform_all-IsConsistent two_calls

pub claimed_b-IsConsistent : IsConsistent claimed_b
unfolding perform_all perform
claimed_b-IsConsistent = perform_all-IsConsistent three_calls

abbrev pub attempt_b : ExecutionAttempt
attempt_b = record {
  attempt_id = 201;
  job_id = 102;
  attempt_number = 1;
  worker_id = "w";
  input_ref = 5;
  lease_token = 301;
  lease_expires_at = 50;
  started_at = 20;
  ended_at = none;
  outcome = none;
  failure_kind = none;
  error_code = none;
  error = none;
  output_ref = none;
}

abbrev pub job_b : JobStatus → ℕ → Job
job_b status now = record {
  job_id = 102;
  task_id = 5;
  status = status;
  priority = pos 5;
  idempotency_key = "b";
  retry_policy = default_retry_policy;
  created_at = 11;
  updated_at = now;
  available_at = 11;
  cancellation_requested_at = none;
  cancelled_at = none;
}

claim_b :
    claim "w" 30 20 ids queued_two ≡ (claimed_b, ok (some (job_b JobStatus.running 20, attempt_b)))
unfolding program
claim_b = refl

claim-IsClaimed_example : IsClaimed "w" 30 20 ids queued_two claimed_b attempt_b
claim-IsClaimed_example =
    claim-IsClaimed "w" 30 20 ids queued_two claimed_b queued_two-IsConsistent
      (job_b JobStatus.running 20) attempt_b claim_b

complete_b :
    complete done 25 claimed_b ≡ ((complete done 25 claimed_b).0, ok (job_b JobStatus.completed 25))
unfolding program
complete_b = refl

complete-repeats_example :
    complete done 70 (complete done 25 claimed_b).0
    ≡ ((complete done 25 claimed_b).0, ok (job_b JobStatus.completed 25))
complete-repeats_example =
    complete-repeats done 25 70 claimed_b (complete done 25 claimed_b).0
      (job_b JobStatus.completed 25) claimed_b-IsConsistent complete_b

perform_all-IsConsistent_example : IsConsistent (perform_all three_calls empty)
perform_all-IsConsistent_example = perform_all-IsConsistent three_calls

abbrev pub row_b : JobRow
row_b = record {
  job_id = 102;
  task_id = 5;
  status = JobStatus.running;
  priority = pos 5;
  retry_policy = default_retry_policy;
  attempt_count = 1;
  active_attempt_id = some 201;
  created_at = 11;
  updated_at = 20;
  available_at = 11;
  cancellation_requested_at = none;
  cancelled_at = none;
}

running_b : find_job 102 (perform_all three_calls empty) ≡ some row_b
unfolding program perform_all perform
running_b = refl

perform_all-moves_example :
    (p : JobRow) × (find_job 102 (perform_all more_calls (perform_all three_calls empty)) ≡ some p)
    × Reaches JobStatus.running p.status
    × (IsTerminal JobStatus.running → p ≡ row_b)
perform_all-moves_example = perform_all-moves three_calls more_calls 102 row_b running_b

held_b : find_attempt 201 (perform_all three_calls empty) ≡ some attempt_b
unfolding program perform_all perform
held_b = refl

perform_all-one_holder_example : ◌≡◌ {A = ℕ} 201 201
perform_all-one_holder_example =
    perform_all-one_holder three_calls 201 201 attempt_b attempt_b held_b held_b refl refl refl

late_b : live_attempt 102 301 50 claimed_b ≡ err lease_conflict
unfolding program
late_b = refl

IsStale-b : IsStale claimed_b 102 301 50
IsStale-b r a l = cc (late_b, IsLive-live_attempt claimed_b 102 301 50 r a l)

stale_worker_example :
    ((heartbeat 102 301 30 50 claimed_b).0 ≡ claimed_b)
    × (is_ok (heartbeat 102 301 30 50 claimed_b).1 ≡ false)
    × ((record_failure failed_b 50 claimed_b).0 ≡ claimed_b)
    × (is_ok (record_failure failed_b 50 claimed_b).1 ≡ false)
    × ((complete done 50 claimed_b).0 ≡ claimed_b)
    × ((r : JobRow)
        → find_job 102 claimed_b ≡ some r
        → is_repeat done r claimed_b ≡ false
        → is_ok (complete done 50 claimed_b).1 ≡ false)
    × (find_job 102 claimed_b ≡ none → is_ok (complete done 50 claimed_b).1 ≡ false)
stale_worker_example =
    stale_worker claimed_b 102 301 30 50 done failed_b IsStale-b refl refl refl refl

few_b : (k : ℕ) (r : JobRow) → find_job k claimed_b ≡ some r → r.retry_policy.max_attempts ≤ 1024
unfolding program
few_b k r e =
    find-All job_key (λ (q : JobRow). q.retry_policy.max_attempts ≤ 1024) k claimed_b.jobs r
      (ground arith, (ground arith, tt)) e

reclaim_expired-recovers_example : IsRecovered 50 claimed_b (reclaim_expired 50 claimed_b).0
reclaim_expired-recovers_example =
    reclaim_expired-recovers 50 claimed_b claimed_b-IsConsistent few_b
